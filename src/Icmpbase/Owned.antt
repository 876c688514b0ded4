-- ===== src/Icmpbase/Owned.antt =====
-- internal/backend/icmpbase/service_normal.go: what a connection was given, and its listeners.
use vasily.Base.{
  ℕ, ◌==◌, ==_iff, Bool, true, false, Bool-cases, ◌&&◌, Option, none, some, some_injective, List,
  [], ◌∷◌, ◌++◌, map, length, get_elem?, set, All, All-set, All-get_elem?, get_elem?-append,
  get_elem?-append_self, get_elem?-map, get_elem?-of_map, map-set, if-eq, ◌≡◌, ◌≢◌, inl, inr, refl,
  sym, ap, ap₂, ◌∙◌,
}
use mathlib.Core.Path.{subst}
use vasily.Backend.{packet_request}
use vasily.Icmpbase.{ListenerKey, ReadResult, Conn, Service, same_key, listener, unlisten}

-- A result for the key: a reply with its id.
pub record IsFor (key : ListenerKey) (r : ReadResult) : Type 0 where
  pub same_id : r.id ≡ key.id
  pub no_request : r.packet.packet_type ≢ packet_request

abbrev pub HasOwn : Conn → Type 0
HasOwn c = All (IsFor c.key) c.received

abbrev pub keys : List Conn → List ListenerKey
keys cs = map (λ (c : Conn). c.key) cs

abbrev pub IsListed : List ListenerKey → ListenerKey × ℕ → Type 0
IsListed ks (k, i) = get_elem? ks i ≡ some k

abbrev pub IsAimed : List ListenerKey → Option (ℕ × ReadResult) → Type 0
IsAimed ks none = Unit {0}
IsAimed ks (some (i, r)) = (k : ListenerKey) × (get_elem? ks i ≡ some k) × IsFor k r

-- The listeners lead to connections with their key, and nobody got what is not theirs.
pub record Delivers (sending : Option (ℕ × ReadResult)) (table : List (ListenerKey × ℕ))
    (cs : List Conn) : Type 0 where
  pub listed : All (IsListed (keys cs)) table
  pub own : All HasOwn cs
  pub aimed : IsAimed (keys cs) sending

abbrev pub IsSound : Service → Type 0
IsSound s = Delivers s.sending s.listeners s.conns

pub same_key_eq : (a b : ListenerKey) → same_key a b ≡ true → a ≡ b
unfolding same_key
same_key_eq a b h =
    let (i, p) = both (a.id == b.id) (a.proto == b.proto) h in
    ap₂ (λ i p. record { id = i; proto = p }) ((==_iff a.id b.id).0 i)
      ((==_iff a.proto b.proto).0 p)
  where
    both : (x y : Bool) → (x && y) ≡ true → (x ≡ true) × (y ≡ true)
    both true true h = (refl, refl)
    both true false h = cc
    both false y h = cc

pub unlisten-All :
    (P : ListenerKey × ℕ → Type 0) (key : ListenerKey) (t : List (ListenerKey × ℕ))
    → All P t
    → All P (unlisten key t)
unfolding unlisten
unlisten-All P key [] h = tt
unlisten-All P key ((k, i) ∷ t) h = elim (Bool-cases (same_key key k)) [
  | inl q ↦ rw q (unlisten-All P key t h.1)
  | inr q ↦ rw q (h.0, unlisten-All P key t h.1)
]

pub listener-All :
    (P : ListenerKey × ℕ → Type 0) (key : ListenerKey) (t : List (ListenerKey × ℕ)) (i : ℕ)
    → All P t
    → listener key t ≡ some i
    → P (key, i)
unfolding listener
listener-All P key [] i h e = cc
listener-All P key ((k, j) ∷ t) i h e = elim (if-eq (same_key key k) _ _ e) [
  | inl (q, e) ↦ subst P (ap₂ (λ a b. (a, b)) (sym (same_key_eq key k q)) (some_injective e)) h.0
  | inr (q, e) ↦ listener-All P key t i h.1 e
]

-- A write that keeps the key of the connection.
pub put_back :
    (d d' : Option (ℕ × ReadResult)) (t : List (ListenerKey × ℕ)) (cs : List Conn) (i : ℕ)
    (c c' : Conn)
    → Delivers d t cs
    → get_elem? cs i ≡ some c
    → c'.key ≡ c.key
    → HasOwn c'
    → (IsAimed (keys cs) d → IsAimed (keys cs) d')
    → Delivers d' t (set cs i c')
put_back d d' t cs i c c' h g e k a =
    let same : keys cs ≡ keys (set cs i c') = sym (map-set (λ (c : Conn). c.key) cs i g e) in
    record {
      listed = subst (λ ks. All (IsListed ks) t) same h.listed;
      own = All-set HasOwn cs i c' h.own k;
      aimed = subst (λ ks. IsAimed ks d') same (a h.aimed);
    }

pub at : (s : Service) (i : ℕ) (c : Conn) → IsSound s → get_elem? s.conns i ≡ some c → HasOwn c
at s i c h g = All-get_elem? HasOwn s.conns i h.own g

pub keys_later :
    (cs : List Conn) (c : Conn) (i : ℕ) (k : ListenerKey)
    → get_elem? (keys cs) i ≡ some k
    → get_elem? (keys (cs ++ (c ∷ []))) i ≡ some k
keys_later cs c i k g =
    let (x, q, e) = get_elem?-of_map (λ (c : Conn). c.key) cs i g in
    get_elem?-map (λ (c : Conn). c.key) (cs ++ (c ∷ [])) i (get_elem?-append cs (c ∷ []) i q)
    ∙ ap some e

pub keys-append :
    (cs : List Conn) (c : Conn) (t : List (ListenerKey × ℕ))
    → All (IsListed (keys cs)) t
    → All (IsListed (keys (cs ++ (c ∷ [])))) t
keys-append cs c [] h = tt
keys-append cs c ((k, i) ∷ t) h = (keys_later cs c i k h.0, keys-append cs c t h.1)

pub keys_here :
    (cs : List Conn) (c : Conn) → get_elem? (keys (cs ++ (c ∷ []))) (length cs) ≡ some c.key
keys_here cs c =
    get_elem?-map (λ (c : Conn). c.key) (cs ++ (c ∷ [])) (length cs) (get_elem?-append_self cs [] c)

pub IsAimed-append :
    (cs : List Conn) (c : Conn) (d : Option (ℕ × ReadResult))
    → IsAimed (keys cs) d
    → IsAimed (keys (cs ++ (c ∷ []))) d
IsAimed-append cs c none a = tt
IsAimed-append cs c (some (i, r)) (k, g, f) = (k, keys_later cs c i k g, f)
