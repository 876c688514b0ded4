-- ===== src/Icmpbase/Services.antt =====
-- internal/backend/icmpbase/service_normal.go: the services that all connections share.
use vasily.Base.{
  ℕ, ◌==◌, Bool, true, false, Option, none, some, List, [], ◌∷◌, arith, if◌then◌else◌, Result, ok,
  map, err, panic, or_panic, ◌>>=◌, >>=-eq-ok, ok-injective, ◌≡◌, refl, sym, ap, ◌∙◌,
}
use vasily.Util.{ipv4, ipv6}

-- The variables of the package: `serviceStart` is done once both services are there.
pub record Services (S : Type 0) : Type 0 where
  pub started : Bool
  pub service_v4 : Option S
  pub service_v6 : Option S

abbrev pub no_services : {S : Type 0} → Services S
no_services = record { started = false; service_v4 = none; service_v6 = none }

-- `new` is `newICMPService`, which opens a socket and acts on a world.
module _ {S W : Type 0} (new : ℕ → W → Result (S × W)) where
  -- The function that `serviceStart` is given.
  unfoldable pub start_services : W → Result (Services S × W)
  start_services w = do
    (v4, w) ← or_panic (new ipv4 w)
    (v6, w) ← or_panic (new ipv6 w)
    ok (record { started = true; service_v4 = some v4; service_v6 = some v6 }, w)

  unfoldable pub maybe_start_service : Services S → W → Result (Services S × W)
  unfolding start_services
  maybe_start_service s w = if s.started then ok (s, w) else start_services w

  -- The service of a version, a nil pointer if it is not there.
  abbrev pub service_of : ℕ → Services S → Result (Option S)
  service_of ip_ver s =
      if ip_ver == ipv4 then ok s.service_v4 else if ip_ver == ipv6 then ok s.service_v6 else panic

  unfoldable pub service_for : ℕ → Services S → W → Result (Option S × Services S × W)
  unfolding maybe_start_service
  service_for ip_ver s w = do
    (s, w) ← maybe_start_service s w
    v ← service_of ip_ver s
    ok (v, s, w)

  -- The services of a number of calls.
  unfoldable pub services_for : List ℕ → Services S → W → Result (List (Option S) × Services S × W)
  unfolding service_for
  services_for [] s w = ok ([], s, w)
  services_for (v ∷ vs) s w = do
    (x, s, w) ← service_for v s w
    (xs, s, w) ← services_for vs s w
    ok (x ∷ xs, s, w)

  or_panic-eq-ok : {A : Type 0} (r : Result A) (a : A) → or_panic r ≡ ok a → r ≡ ok a
  or_panic-eq-ok (ok x) a h = h
  or_panic-eq-ok (err e) a h = cc
  or_panic-eq-ok panic a h = cc

  abbrev both : S → S → Services S
  both v4 v6 = record { started = true; service_v4 = some v4; service_v6 = some v6 }

  abbrev pub pick : S → S → ℕ → Option S
  pick v4 v6 ip_ver = if ip_ver == ipv4 then some v4 else some v6

  service_of-both :
      (v4 v6 : S) (ip_ver : ℕ) (x : Option S)
      → service_of ip_ver (both v4 v6) ≡ ok x
      → x ≡ pick v4 v6 ip_ver
  service_of-both v4 v6 ip_ver x h = ground arith

  abbrev snd_of : {A B : Type 0} → B → Result (A × B × W) → B
  snd_of d (ok (a, b, w)) = b
  snd_of d _ = d

  abbrev fst_of : {A B : Type 0} → A → Result (A × B × W) → A
  fst_of d (ok (a, b, w)) = a
  fst_of d _ = d

  abbrev world_of : {A B : Type 0} → W → Result (A × B × W) → W
  world_of d (ok (a, b, w)) = w
  world_of d _ = d

  service_for-both :
      (v4 v6 : S) (v : ℕ) (w w' : W) (x : Option S) (s : Services S)
      → service_for v (both v4 v6) w ≡ ok (x, s, w')
      → (x ≡ pick v4 v6 v) × (both v4 v6 ≡ s) × (w ≡ w')
  unfolding service_for maybe_start_service
  service_for-both v4 v6 v w w' x s h =
      let (y, q, k) = >>=-eq-ok (service_of v (both v4 v6)) _ h in
      (
        sym (ap (fst_of y) k) ∙ service_of-both v4 v6 v y q,
        ap (snd_of (both v4 v6)) k,
        ap (world_of w) k,
      )

  services_for-both :
      (v4 v6 : S) (vs : List ℕ) (w w' : W) (xs : List (Option S)) (s : Services S)
      → services_for vs (both v4 v6) w ≡ ok (xs, s, w')
      → (xs ≡ map (pick v4 v6) vs) × (w ≡ w')
  unfolding services_for
  services_for-both v4 v6 [] w w' xs s h = (sym (ap (fst_of []) h), ap (world_of w) h)
  services_for-both v4 v6 (v ∷ vs) w w' xs s h =
      let ((x, s1, w1), p, k) = >>=-eq-ok (service_for v (both v4 v6) w) _ h in
      let ((ys, s2, w2), q, k) = >>=-eq-ok (services_for vs s1 w1) _ k in
      let (at, still, same) = service_for-both v4 v6 v w w1 x s1 p in
      let (rest, there) =
        services_for-both v4 v6 vs w1 w2 ys s2 (ap (λ u. services_for vs u w1) still ∙ q) in
      (
        sym (ap (fst_of []) k) ∙ ap (λ y. y ∷ ys) at ∙ ap (λ l. pick v4 v6 v ∷ l) rest,
        same ∙ there ∙ ap (world_of w) k,
      )

  start_services-both :
      (w w' : W) (s : Services S)
      → start_services w ≡ ok (s, w')
      → (v4 : S) × (v6 : S) × (w4 : W) × (new ipv4 w ≡ ok (v4, w4))
        × (new ipv6 w4 ≡ ok (v6, w'))
        × (start_services w ≡ ok (both v4 v6, w'))
  unfolding start_services
  start_services-both w w' s h =
      let ((v4, a), e4, k) = >>=-eq-ok (or_panic (new ipv4 w)) _ h in
      let ((v6, b), e6, k) = >>=-eq-ok (or_panic (new ipv6 a)) _ k in
      let same : b ≡ w' = ap (λ (z : Services S × W). z.1) (ok-injective k) in
      (
        v4,
        v6,
        a,
        or_panic-eq-ok (new ipv4 w) _ e4,
        or_panic-eq-ok (new ipv6 a) _ e6 ∙ ap (λ u. ok (v6, u)) same,
        h ∙ sym k ∙ ap (λ u. ok (both v4 v6, u)) same,
      )

  started :
      (v : ℕ) (vs : List ℕ) (w w' : W) (v4 v6 : S)
      → start_services w ≡ ok (both v4 v6, w')
      → services_for (v ∷ vs) no_services w ≡ services_for (v ∷ vs) (both v4 v6) w'
  unfolding services_for service_for maybe_start_service
  started v vs w w' v4 v6 e = rw e refl

  -- Whatever versions connections are made for, and however many: if none of the calls panics, two
  -- services were made in all, at the first call, and every call has got the one of its version.
  pub services_for-pick :
      (v : ℕ) (vs : List ℕ) (w w' : W) (xs : List (Option S)) (s : Services S)
      → services_for (v ∷ vs) no_services w ≡ ok (xs, s, w')
      → (v4 : S) × (v6 : S) × (w4 : W) × (new ipv4 w ≡ ok (v4, w4))
        × (new ipv6 w4 ≡ ok (v6, w'))
        × (xs ≡ map (pick v4 v6) (v ∷ vs))
  unfolding services_for service_for maybe_start_service
  services_for-pick v vs w w' xs s h =
      let (x, p, k) = >>=-eq-ok (service_for v no_services w) _ h in
      let ((s0, b), q, k) = >>=-eq-ok (start_services w) _ p in
      let (v4, v6, a, e4, e6, e) = start_services-both w b s0 q in
      let (all, same) =
        services_for-both v4 v6 (v ∷ vs) b w' xs s (sym (started v vs w b v4 v6 e) ∙ h) in
      (v4, v6, a, e4, e6 ∙ ap (λ u. ok (v6, u)) same, all)
