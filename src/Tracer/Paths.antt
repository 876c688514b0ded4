-- ===== src/Tracer/Paths.antt =====
-- internal/tracer/tracer.go: a network whose hosts all answer.
use vasily.Base.{
  ℕ, zero, suc, ◌+◌, ◌-◌, ◌≤◌, ◌<◌, Bool, true, false, Bool-cases, Option, none, ◌∷◌, ◌==◌, ==_refl,
  if◌then◌else◌, ◌≡◌, refl, sym, ap, ◌∙◌, arith, inl, inr, Error,
}
use mathlib.Core.Path.{subst}
use vasily.Base.Int.{pos}
use vasily.Backend.{Addr, Bytes}
use vasily.Tracer.{
  Options, probes_per_hop_of, max_ttl_of, Probe, Key, Trace, Hop, passed, arrived, read_seq,
  same_key, add_step, was_seen, receive, sent, probe, hops, after_probe, advance, after_try, tries,
  start, trace_route,
}
use vasily.Tracer.Steps.{keys}
use vasily.Tracer.Clear.{
  clear_path, path, eqb_bytes_refl, eq_false, le_cases, self, next_le, between, limit_of, or_true,
}

module _ (router : ℕ → Addr) (d : ℕ) (addr_string : Addr → Bytes) (port_conn : Bool) where
  abbrev ask : ℕ → ℕ → Probe
  ask = clear_path router d

  record OnPath (m : ℕ) (t : Trace) : Type 0 where
    walked : t.steps ≡ path router m
    recorded : t.seen ≡ keys ask addr_string port_conn t.steps

  abbrev at : ℕ → Key
  at ttl = (ttl, addr_string (router ttl))

  same_at : (i j : ℕ) → i ≡ j → same_key (at i) (at j) ≡ true
  unfolding same_key
  same_at i j e =
      ap (λ k. same_key (at i) (at k)) (sym e)
      ∙ (rw (==_refl i, eqb_bytes_refl (addr_string (router i))))

  differ_at : (i j : ℕ) → j < i → same_key (at i) (at j) ≡ false
  unfolding same_key
  differ_at i j h = rw (eq_false i j h)

  seen_before :
      (m ttl : ℕ)
      → 1 ≤ ttl
      → ttl ≤ m
      → was_seen (at ttl) (keys ask addr_string port_conn (path router m)) ≡ true
  unfolding was_seen
  seen_before zero ttl l h = absurd (omega arith)
  seen_before (suc m) ttl l h = elim (le_cases ttl m h) [
    | inl e ↦ rw (same_at ttl (suc m) e)
    | inr le ↦ or_true (same_key (at ttl) (at (suc m))) (seen_before m ttl l le)
  ]

  not_seen :
      (m ttl : ℕ)
      → m < ttl
      → was_seen (at ttl) (keys ask addr_string port_conn (path router m)) ≡ false
  unfolding was_seen
  not_seen zero ttl h = refl
  not_seen (suc m) ttl h = rw (differ_at ttl (suc m) h, not_seen m ttl (omega arith))

  abbrev met : Trace → ℕ → Trace
  met t ttl =
      add_step ask addr_string port_conn (sent ask addr_string port_conn t ttl)
        (record { pos_in_path = ttl; host = router ttl })

  probe-clear :
      (t : Trace) (ttl : ℕ)
      → probe ask addr_string port_conn t ttl ≡ (met t ttl, if ttl == d then arrived else passed)
  unfolding probe read_seq receive
  probe-clear t ttl = elim (Bool-cases (ttl == d)) [
    | inl q ↦ rw (q, self (ttl - 1))
    | inr q ↦ rw (q, self (ttl - 1))
  ]

  known :
      (m ttl : ℕ) (t : Trace)
      → OnPath m t
      → was_seen (at ttl) t.seen
        ≡ was_seen (at ttl) (keys ask addr_string port_conn (path router m))
  known m ttl t h =
      ap (was_seen (at ttl)) (h.recorded ∙ ap (keys ask addr_string port_conn) h.walked)

  after_arrived :
      (b : Bool) (t : Trace) (next : Trace → Trace × Hop)
      → b ≡ true
      → after_probe ask addr_string port_conn (t, if b then arrived else passed) next ≡ (t, arrived)
  after_arrived true t next h = refl
  after_arrived false t next h = cc

  after_passed :
      (b : Bool) (t : Trace) (next : Trace → Trace × Hop)
      → b ≡ false
      → after_probe ask addr_string port_conn (t, if b then arrived else passed) next ≡ next t
  after_passed true t next h = cc
  after_passed false t next h = refl

  -- After the probe of a hop, the way is known at least that far.
  met-OnPath :
      (m ttl : ℕ) (t : Trace)
      → OnPath m t
      → 1 ≤ ttl
      → ttl ≤ m + 1
      → ttl ≤ d
      → m ≤ d
      → (m' : ℕ) × OnPath m' (met t ttl) × (ttl ≤ m') × (m' ≤ d)
  unfolding add_step
  met-OnPath m ttl t h l u b c = elim (le_cases ttl m (omega arith)) [
    | inl e ↦ (
      suc m,
      rw (known m ttl t h ∙ not_seen m ttl (omega (arith, e))) (record {
        walked =
            ap (λ k. record { pos_in_path = k; host = router k } ∷ t.steps) e
            ∙ ap (λ x. record { pos_in_path = suc m; host = router (suc m) } ∷ x) h.walked;
        recorded = ap (λ x. at ttl ∷ x) h.recorded;
      }),
      omega (arith, e),
      omega (arith, e),
    )
    | inr le ↦ (
      m,
      rw (known m ttl t h ∙ seen_before m ttl l le)
          (record { walked = h.walked; recorded = h.recorded }),
      le,
      c,
    )
  ]

  hops-clear :
      (left ttl m : ℕ) (t : Trace)
      → OnPath m t
      → 1 ≤ ttl
      → ttl ≤ m + 1
      → ttl ≤ d
      → m ≤ d
      → d < ttl + left
      → (t' : Trace) × (hops ask addr_string port_conn left ttl t ≡ (t', arrived)) × OnPath d t'
  unfolding hops
  hops-clear zero ttl m t h l u b c r = absurd (omega arith)
  hops-clear (suc left) ttl m t h l u b c r =
      let (m', on, far, c') = met-OnPath m ttl t h l u b c in
      let next = hops ask addr_string port_conn left (ttl + 1) in
      let first = ap (λ x. after_probe ask addr_string port_conn x next) (probe-clear t ttl) in
      elim (Bool-cases (ttl == d)) [
        | inl q ↦ (
          met t ttl,
          first ∙ after_arrived (ttl == d) (met t ttl) next q,
          subst (λ k. OnPath k (met t ttl)) (between ttl m' d q far c') on,
        )
        | inr q ↦
            let (t', e, on') =
              hops-clear left (ttl + 1) m' (met t ttl) on (omega arith) (omega arith)
                (next_le ttl d q b) c' (omega arith) in
            (t', first ∙ after_passed (ttl == d) (met t ttl) next q ∙ e, on')
      ]

  advance-OnPath : (m : ℕ) (t : Trace) → OnPath m t → OnPath m (advance ask addr_string port_conn t)
  advance-OnPath m t h = elim (Bool-cases port_conn) [
    | inl q ↦ rw q (record { walked = h.walked; recorded = h.recorded })
    | inr q ↦ rw q (record { walked = h.walked; recorded = h.recorded })
  ]

  try-clear :
      (limit m : ℕ) (t : Trace) (next : Trace → Trace × Option Error)
      → OnPath m t
      → 1 ≤ d
      → d ≤ limit
      → m ≤ d
      → (t' : Trace) × (after_try ask addr_string port_conn
            (hops ask addr_string port_conn limit 1 t)
            next
          ≡ next t')
        × OnPath d t'
  try-clear limit m t next h l u c =
      let (t1, e, on) = hops-clear limit 1 m t h (omega arith) (omega arith) l c (omega arith) in
      (
        advance ask addr_string port_conn t1,
        ap (λ x. after_try ask addr_string port_conn x next) e,
        advance-OnPath d t1 on,
      )

  tries-clear :
      (left limit m : ℕ) (t : Trace)
      → OnPath m t
      → 1 ≤ d
      → d ≤ limit
      → m ≤ d
      → (t' : Trace) × (tries ask addr_string port_conn (suc left) limit t ≡ (t', none))
        × OnPath d t'
  unfolding tries
  tries-clear zero limit m t h l u c =
      try-clear limit m t (tries ask addr_string port_conn 0 limit) h l u c
  tries-clear (suc left) limit m t h l u c =
      let (t1, e, on) =
        try-clear limit m t (tries ask addr_string port_conn (suc left) limit) h l u c in
      let (t2, e2, on2) = tries-clear left limit d t1 on l u (omega arith) in (t2, e ∙ e2, on2)

  -- Where every router on the way answers with time exceeded and the destination replies at a
  -- distance below the maximum TTL, a trace with at least one probe per hop returns no error, and
  -- the steps it reports are the routers in order and the destination, each once, however many
  -- probes per hop there are.
  pub trace_route-path :
      (opts : Option Options) (base_port k m : ℕ)
      → probes_per_hop_of opts ≡ pos (suc k)
      → max_ttl_of opts ≡ pos m
      → 1 ≤ d
      → d < m
      → (t : Trace) × (trace_route (clear_path router d) addr_string port_conn opts base_port
          ≡ (t, none))
        × (t.steps ≡ path router d)
  unfolding trace_route
  trace_route-path opts base_port k m tries_each limit l u =
      let (t, e, on) =
        tries-clear k (m - 1) 0 (start ask addr_string port_conn base_port)
          (record { walked = refl; recorded = refl }) l (omega arith) (omega arith) in
      (t, rw (tries_each, limit, limit_of m (omega arith)) e, on.walked)
