-- ===== src/Icmpbase/Delivery.antt =====
-- What `ReadFrom` hands out.
use vasily.Base.{
  ℕ, zero, suc, ltb, Bool-cases, Option, none, some, List, [], ◌∷◌, All, get_elem?, if-keeps, ok,
  >>=-eq-ok, ok-injective, ◌≡◌, inl, inr, refl,
}
use mathlib.Core.Path.{subst}
use vasily.Icmpbase.{
  ListenerKey, Conn, Service, max_active_conns, new_service, listener, is_locked, acquire,
  fail_open, unregister_reader, close_conn, Event, opens, fails, registers, arrives, reads, closes,
  close_returns, step, run,
}
use vasily.Icmpbase.Owned.{HasOwn, IsSound}
use vasily.Icmpbase.Sound.{
  register-IsSound, arrive-IsSound, read-IsSound, wait-IsSound, close_listed-IsSound,
  return-IsSound,
}

acquire-IsSound : (s : Service) → IsSound s → IsSound (acquire s)
unfolding acquire
acquire-IsSound s h = elim (Bool-cases (ltb s.active max_active_conns)) [
  | inl q ↦ rw q (record { listed = h.listed; own = h.own; aimed = h.aimed })
  | inr q ↦ rw q h
]

fail-IsSound : (s : Service) (n : ℕ) → IsSound s → IsSound (fail_open s n)
unfolding fail_open
fail-IsSound s zero h = h
fail-IsSound s (suc n) h = record { listed = h.listed; own = h.own; aimed = h.aimed }

unregister-IsSound :
    (s : Service) (key : ListenerKey) (o : Option ℕ) (s' : Service)
    → IsSound s
    → unregister_reader s key o ≡ ok s'
    → IsSound s'
unfolding unregister_reader
unregister-IsSound s key none s' h e = cc
unregister-IsSound s key (some j) s' h e =
    close_listed-IsSound s h key j (get_elem? s.conns j) s' refl e

close-IsSound :
    (s : Service) (i : ℕ) (o : Option Conn) (s' : Service)
    → IsSound s
    → close_conn s i o ≡ ok s'
    → IsSound s'
unfolding close_conn
close-IsSound s i none s' h e = subst IsSound (ok-injective e) h
close-IsSound s i (some c) s' h e =
    let (b, q, k) = >>=-eq-ok (unregister_reader s c.key (listener c.key s.listeners)) _ e in
    let g = unregister-IsSound s c.key (listener c.key s.listeners) b h q in
    subst IsSound (ok-injective k) (wait-IsSound b g i (get_elem? b.conns i) refl)

step-IsSound : (s : Service) (e : Event) (s' : Service) → IsSound s → step s e ≡ ok s' → IsSound s'
unfolding step
step-IsSound s opens s' h e = subst IsSound (ok-injective e) (acquire-IsSound s h)
step-IsSound s fails s' h e = subst IsSound (ok-injective e) (fail-IsSound s s.opening h)
step-IsSound s (registers id proto) s' h e =
    if-keeps IsSound (is_locked s.sending) s _ s' h
      (λ e. subst IsSound (ok-injective e) (register-IsSound s h s.opening id proto)) e
step-IsSound s (arrives pkt peer key) s' h e =
    if-keeps IsSound (is_locked s.sending) s _ s' h (arrive-IsSound s h pkt peer key s') e
step-IsSound s (reads i) s' h e = subst IsSound (ok-injective e) (read-IsSound s h i s.sending refl)
step-IsSound s (closes i) s' h e =
    if-keeps IsSound (is_locked s.sending) s _ s' h (close-IsSound s i (get_elem? s.conns i) s' h) e
step-IsSound s (close_returns i) s' h e =
    subst IsSound (ok-injective e) (return-IsSound s h i (get_elem? s.conns i) refl)

run-IsSound : (es : List Event) (s s' : Service) → IsSound s → run s es ≡ ok s' → IsSound s'
unfolding run
run-IsSound [] s s' h e = subst IsSound (ok-injective e) h
run-IsSound (x ∷ es) s s' h e =
    let (b, q, k) = >>=-eq-ok (step s x) _ e in run-IsSound es b s' (step-IsSound s x b h q) k

-- Whatever the socket receives and in whatever order connections are opened, read and closed:
-- `ReadFrom` of a connection has handed out only results with the echo id of this connection, and
-- never an echo request.
pub run-HasOwn :
    (next_id : ℕ) (es : List Event) (s : Service)
    → run (new_service next_id) es ≡ ok s
    → All HasOwn s.conns
run-HasOwn next_id es s e =
    let start : IsSound (new_service next_id) = record { listed = tt; own = tt; aimed = tt } in
    (run-IsSound es (new_service next_id) s start e).own
