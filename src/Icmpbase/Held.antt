-- ===== src/Icmpbase/Held.antt =====
-- internal/backend/icmpbase/service_normal.go: a send whose connection nobody reads.
use vasily.Base.{
  ℕ, zero, suc, ◌==◌, ltb, Bool-cases, false, ◌&&◌, Option, none, some, List, [], ◌∷◌, All,
  get_elem?, if◌then◌else◌, if-eq, Result, ok, >>=-eq-ok, ok-injective, ◌≡◌, inl, inr, refl, sym,
  ap,
}
use mathlib.Core.Path.{subst}
use vasily.Icmpbase.{
  ListenerKey, ReadResult, Conn, Service, max_active_conns, is_locked, acquire, fail_open,
  read_from, release, return_close, Event, opens, fails, registers, arrives, reads, closes,
  close_returns, step, run,
}

-- The event is not a `ReadFrom` of connection `i`.
abbrev pub IsOther : ℕ → Event → Type 0
IsOther i (reads j) = (j == i) ≡ false
IsOther i opens = Unit {0}
IsOther i fails = Unit {0}
IsOther i (registers id proto) = Unit {0}
IsOther i (arrives pkt peer key) = Unit {0}
IsOther i (closes j) = Unit {0}
IsOther i (close_returns j) = Unit {0}

-- In the send to `i`, with the listeners that there are.
abbrev IsHeld : ℕ → ReadResult → List (ListenerKey × ℕ) → Service → Type 0
IsHeld i r table s = (s.sending ≡ some (i, r)) × (s.listeners ≡ table)

module _ (i : ℕ) (r : ReadResult) (table : List (ListenerKey × ℕ)) (s : Service)
    (h : IsHeld i r table s) where
  acquire-IsHeld : IsHeld i r table (acquire s)
  unfolding acquire
  acquire-IsHeld = elim (Bool-cases (ltb s.active max_active_conns)) [
    | inl q ↦ rw q h
    | inr q ↦ rw q h
  ]

  fail-IsHeld : (n : ℕ) → IsHeld i r table (fail_open s n)
  unfolding fail_open
  fail-IsHeld zero = h
  fail-IsHeld (suc n) = h

  read-IsHeld :
      (j : ℕ) (d : Option (ℕ × ReadResult))
      → d ≡ some (i, r)
      → (j == i) ≡ false
      → IsHeld i r table (read_from s j d)
  unfolding read_from
  read-IsHeld j none e n = h
  read-IsHeld j (some (k, x)) e n =
      let at : k ≡ i = cc in
      let other : (j == k) ≡ false = subst (λ m. (j == m) ≡ false) (sym at) n in rw other h

  release-IsHeld : (j : ℕ) (c : Conn) (n : ℕ) → IsHeld i r table (release s j c n)
  unfolding release
  release-IsHeld j c zero = h
  release-IsHeld j c (suc n) = elim (Bool-cases (c.is_closed && ltb 0 s.active)) [
    | inl q ↦ rw q h
    | inr q ↦ rw q h
  ]

  return-IsHeld : (j : ℕ) (o : Option Conn) → IsHeld i r table (return_close s j o)
  unfolding return_close
  return-IsHeld j none = h
  return-IsHeld j (some c) = release-IsHeld j c c.close_waits

  locked :
      (x : Result Service) (s' : Service)
      → (if is_locked s.sending then ok s else x) ≡ ok s'
      → IsHeld i r table s'
  locked x s' e = elim (if-eq (is_locked s.sending) (ok s) x e) [
    | inl (q, e) ↦ subst (IsHeld i r table) (ok-injective e) h
    | inr (q, e) ↦ cc (ap is_locked h.0)
  ]

  step-IsHeld : (e : Event) (s' : Service) → IsOther i e → step s e ≡ ok s' → IsHeld i r table s'
  unfolding step
  step-IsHeld opens s' n e = subst (IsHeld i r table) (ok-injective e) acquire-IsHeld
  step-IsHeld fails s' n e = subst (IsHeld i r table) (ok-injective e) (fail-IsHeld s.opening)
  step-IsHeld (registers id proto) s' n e = locked _ s' e
  step-IsHeld (arrives pkt peer key) s' n e = locked _ s' e
  step-IsHeld (reads j) s' n e =
      subst (IsHeld i r table) (ok-injective e) (read-IsHeld j s.sending h.0 n)
  step-IsHeld (closes j) s' n e = locked _ s' e
  step-IsHeld (close_returns j) s' n e =
      subst (IsHeld i r table) (ok-injective e) (return-IsHeld j (get_elem? s.conns j))

run-IsHeld :
    (i : ℕ) (r : ReadResult) (table : List (ListenerKey × ℕ)) (es : List Event) (s s' : Service)
    → All (IsOther i) es
    → IsHeld i r table s
    → run s es ≡ ok s'
    → IsHeld i r table s'
unfolding run
run-IsHeld i r table [] s s' n h e = subst (IsHeld i r table) (ok-injective e) h
run-IsHeld i r table (x ∷ es) s s' n h e =
    let (b, q, k) = >>=-eq-ok (step s x) _ e in
    run-IsHeld i r table es b s' n.1 (step-IsHeld i r table s h x b n.0 q) k

-- While a reply for connection `i` is being sent to its reader, nothing but a `ReadFrom` of this
-- connection ends that: in every order of other events, calls of `Close` for it included, the send
-- goes on with the mutex held, and no connection is registered or unregistered.
pub run_held :
    (i : ℕ) (r : ReadResult) (s s' : Service) (es : List Event)
    → s.sending ≡ some (i, r)
    → All (IsOther i) es
    → run s es ≡ ok s'
    → (s'.sending ≡ some (i, r)) × (s'.listeners ≡ s.listeners)
run_held i r s s' es d n e = run-IsHeld i r s.listeners es s s' n (d, refl) e
