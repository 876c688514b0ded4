-- ===== src/Tracer/Ports.antt =====
-- internal/tracer/tracer.go: the probes of a trace and their ports.
use vasily.Base.{
  ℕ, zero, suc, ◌+◌, true, Bool-cases, Option, List, [], ◌∷◌, ◌≡◌, refl, ap, ◌∙◌, arith, inl, inr,
}
use vasily.Base.Int.{pos, pos_part, ◌-ℤ◌}
use vasily.Backend.{Addr, Bytes}
use vasily.Tracer.{
  Options, probes_per_hop_of, max_ttl_of, Probe, Step, Trace, add_step, was_seen, key, sent, start,
  trace_route,
}
use vasily.Tracer.Rounds.{Probed, lost, met, tries-keeps}

-- first + n - 1, ..., first
abbrev pub count_down : ℕ → ℕ → List ℕ
count_down first zero = []
count_down first (suc n) = (first + n) ∷ count_down first n

-- At a hop of a try: the ports so far are consecutive, and the connection's base port is right.
record Consecutive (first : ℕ) (ttl : ℕ) (t : Trace) : Type 0 where
  next_port : t.base_port + ttl ≡ first + t.n_probes
  next_base : t.next_base_port ≡ first + t.n_probes
  used : t.ports ≡ count_down first t.n_probes

suc_eq : (n : ℕ) → suc n ≡ n + 1
suc_eq n = omega arith

cons_eq : {a b : ℕ} {xs ys : List ℕ} → a ≡ b → xs ≡ ys → a ∷ xs ≡ b ∷ ys
cons_eq p q = cc

module _ (ask : ℕ → ℕ → Probe) (addr_string : Addr → Bytes) where
  sent-Consecutive :
      (first ttl : ℕ) (t : Trace)
      → Consecutive first ttl t
      → Consecutive first (ttl + 1) (sent ask addr_string true t (ttl + 1))
  sent-Consecutive first ttl t h = record {
    next_port = omega (arith, h.next_port);
    next_base = omega (arith, h.next_base);
    used = cons_eq (omega (arith, h.next_port)) h.used ∙ ap (count_down first) (suc_eq t.n_probes);
  }

  add_step-Consecutive :
      (first ttl : ℕ) (t : Trace) (st : Step)
      → Consecutive first ttl t
      → Consecutive first ttl (add_step ask addr_string true t st)
  unfolding add_step
  add_step-Consecutive first ttl t st h =
      elim (Bool-cases (was_seen (key ask addr_string true st) t.seen)) [
        | inl q ↦ rw q h
        | inr q ↦ rw q (record { next_port = h.next_port; next_base = h.next_base; used = h.used })
      ]

  keep-Consecutive :
      (first ttl : ℕ) (t t' : Trace)
      → Consecutive first ttl t
      → Probed ask addr_string true t (ttl + 1) t'
      → Consecutive first (ttl + 1) t'
  keep-Consecutive first ttl t _ h lost = sent-Consecutive first ttl t h
  keep-Consecutive first ttl t _ h (met host) =
      add_step-Consecutive first (ttl + 1) _ _ (sent-Consecutive first ttl t h)

  -- On a connection that maps sequence numbers to ports, the probes of a whole trace go to
  -- consecutive ports from the connection's base port on, however the tries end: no two probes
  -- share a port.
  pub trace_route-ports :
      (opts : Option Options) (base_port : ℕ)
      → let t = (trace_route ask addr_string true opts base_port).0 in
        t.ports ≡ count_down base_port t.n_probes
  unfolding trace_route
  trace_route-ports opts base_port =
      let limit = pos_part (max_ttl_of opts -ℤ pos 1) in
      (tries-keeps ask addr_string true limit (Consecutive base_port)
        (λ ttl t t' l h p. keep-Consecutive base_port ttl t t' h p)
        (λ ttl t h. record {
          next_port = omega (arith, h.next_base);
          next_base = h.next_base;
          used = h.used;
        })
        (pos_part (probes_per_hop_of opts)) (start ask addr_string true base_port)
        (record { next_port = omega arith; next_base = omega arith; used = refl })).1.used
