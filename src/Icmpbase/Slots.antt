-- ===== src/Icmpbase/Slots.antt =====
-- The limit on connections.
use vasily.Base.{
  ℕ, zero, suc, ◌+◌, ◌<◌, ltb, ◌==◌, Bool-cases, true, List, [], ◌∷◌, ◌++◌, ok, ◌≡◌, inl, inr, refl,
  ap, ◌∙◌, arith,
}
use vasily.Backend.{packet_request}
use vasily.Icmpbase.{
  Service, max_active_conns, new_service, Event, opens, fails, registers, arrives, reads, closes,
  close_returns, step, run,
}

-- A service without connections whose opens have all failed.
abbrev pub after_failures : ℕ → ℕ → Service
after_failures next_id n = record (new_service next_id) { active = n }

-- `n` calls of `New` that find no service.
abbrev pub failures : ℕ → List Event
failures zero = []
failures (suc n) = opens ∷ fails ∷ failures n

one_failure :
    (next_id n : ℕ) (es : List Event)
    → n < max_active_conns
    → run (after_failures next_id n) (opens ∷ fails ∷ es) ≡ run (after_failures next_id (n + 1)) es
unfolding run
one_failure next_id n es h = rw (lt n h) refl
  where
    lt : (n : ℕ) → n < max_active_conns → ltb n max_active_conns ≡ true
    lt n h = ground arith

run-failures :
    (next_id k n : ℕ) (es : List Event)
    → k + n ≡ max_active_conns
    → run (after_failures next_id n) (failures k ++ es)
      ≡ run (after_failures next_id max_active_conns) es
run-failures next_id zero n es h =
    let e : n ≡ max_active_conns = omega (arith, h) in ap (λ m. run (after_failures next_id m) es) e
run-failures next_id (suc k) n es h =
    one_failure next_id n (failures k ++ es) (omega (arith, h))
    ∙ run-failures next_id k (n + 1) es (omega (arith, h))

full-step :
    (next_id : ℕ) (e : Event)
    → step (after_failures next_id max_active_conns) e
      ≡ ok (after_failures next_id max_active_conns)
unfolding step
full-step next_id opens = refl
full-step next_id fails = refl
full-step next_id (registers id proto) = refl
full-step next_id (arrives pkt peer key) = elim (Bool-cases (pkt.packet_type == packet_request)) [
  | inl q ↦ rw q refl
  | inr q ↦ rw q refl
]
full-step next_id (reads i) = refl
full-step next_id (closes i) = refl
full-step next_id (close_returns i) = refl

full-run :
    (next_id : ℕ) (es : List Event)
    → run (after_failures next_id max_active_conns) es
      ≡ ok (after_failures next_id max_active_conns)
unfolding run
full-run next_id [] = refl
full-run next_id (e ∷ es) = rw (full-step next_id e) (full-run next_id es)

-- After a hundred calls of `New` for which `serviceFor` failed, the limit is used up although there
-- is no connection: whatever runs then, and in whatever order, no connection is ever opened.
pub run_exhausted :
    (next_id : ℕ) (es : List Event)
    → run (new_service next_id) (failures 100 ++ es) ≡ ok (after_failures next_id max_active_conns)
run_exhausted next_id es = run-failures next_id 100 0 es refl ∙ full-run next_id es
