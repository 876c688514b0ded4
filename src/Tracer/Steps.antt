-- ===== src/Tracer/Steps.antt =====
-- internal/tracer/tracer.go: the steps that a trace reports.
use vasily.Base.{
  ℕ, ◌+◌, ◌≤◌, ◌<◌, Bool, false, Bool-cases, Option, List, [], ◌∷◌, All, ◌≡◌, refl, sym, ap, ◌∙◌,
  arith, inl, inr,
}
use vasily.Base.Int.{pos, pos_part, ◌-ℤ◌}
use vasily.Backend.{Addr, Bytes}
use vasily.Tracer.{
  Options, probes_per_hop_of, max_ttl_of, Probe, Key, Step, Trace, add_step, was_seen, key, advance,
  start, trace_route,
}
use vasily.Tracer.Rounds.{Probed, lost, met, tries-keeps}

module _ (ask : ℕ → ℕ → Probe) (addr_string : Addr → Bytes) (port_conn : Bool) where
  abbrev pub keys : List Step → List Key
  keys [] = []
  keys (st ∷ steps) = key ask addr_string port_conn st ∷ keys steps

  -- No two steps have both the same position and the same printed address.
  abbrev pub AreDistinct : List Step → Type 0
  AreDistinct [] = Unit {0}
  AreDistinct (st ∷ steps) =
      (was_seen (key ask addr_string port_conn st) (keys steps) ≡ false) × AreDistinct steps

  abbrev pub IsBelow : ℕ → Step → Type 0
  IsBelow limit st = (1 ≤ st.pos_in_path) × (st.pos_in_path ≤ limit)

  record Reported (limit ttl : ℕ) (t : Trace) : Type 0 where
    recorded : t.seen ≡ keys t.steps
    distinct : AreDistinct t.steps
    below : All (IsBelow limit) t.steps

  add_step-Reported :
      (limit ttl : ℕ) (t : Trace) (st : Step)
      → IsBelow limit st
      → Reported limit ttl t
      → Reported limit ttl (add_step ask addr_string port_conn t st)
  unfolding add_step
  add_step-Reported limit ttl t st b h =
      elim (Bool-cases (was_seen (key ask addr_string port_conn st) t.seen)) [
        | inl q ↦ rw q h
        | inr q ↦ rw q (record {
          recorded = ap (λ x. key ask addr_string port_conn st ∷ x) h.recorded;
          distinct =
              (ap (was_seen (key ask addr_string port_conn st)) (sym h.recorded) ∙ q, h.distinct);
          below = (b, h.below);
        })
      ]

  keep-Reported :
      (limit ttl : ℕ) (t t' : Trace)
      → ttl < limit
      → Reported limit ttl t
      → Probed ask addr_string port_conn t (ttl + 1) t'
      → Reported limit (ttl + 1) t'
  keep-Reported limit ttl t _ l h lost = record {
    recorded = h.recorded;
    distinct = h.distinct;
    below = h.below;
  }
  keep-Reported limit ttl t _ l h (met host) =
      add_step-Reported limit (ttl + 1) _ _ (omega arith, omega arith)
        (record { recorded = h.recorded; distinct = h.distinct; below = h.below })

  turn-Reported :
      (limit ttl : ℕ) (t : Trace)
      → Reported limit ttl t
      → Reported limit 0 (advance ask addr_string port_conn t)
  turn-Reported limit ttl t h = elim (Bool-cases port_conn) [
    | inl q ↦ rw q (record { recorded = h.recorded; distinct = h.distinct; below = h.below })
    | inr q ↦ rw q (record { recorded = h.recorded; distinct = h.distinct; below = h.below })
  ]

  -- Whatever the network answers, the steps that a trace reports are distinct, and the position of
  -- each is at least 1 and below the maximum TTL.
  pub trace_route-AreDistinct :
      (opts : Option Options) (base_port : ℕ)
      → let t = (trace_route ask addr_string port_conn opts base_port).0 in
        AreDistinct t.steps × All (IsBelow (pos_part (max_ttl_of opts -ℤ pos 1))) t.steps
  unfolding trace_route
  trace_route-AreDistinct opts base_port =
      let limit = pos_part (max_ttl_of opts -ℤ pos 1) in
      let (last, r) =
        tries-keeps ask addr_string port_conn limit (Reported limit) (keep-Reported limit)
          (turn-Reported limit) (pos_part (probes_per_hop_of opts))
          (start ask addr_string port_conn base_port)
          (record { recorded = refl; distinct = tt; below = tt }) in
      (r.distinct, r.below)
