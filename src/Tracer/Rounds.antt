-- ===== src/Tracer/Rounds.antt =====
-- What holds through the two loops of a trace.
use vasily.Base.{
  ℕ, zero, suc, ◌+◌, ◌-◌, ◌<◌, Bool, Bool-cases, Option, ◌==◌, ◌≡◌, arith, ◌⊎◌, inl, inr, Error,
}
use vasily.Base.Int.{pos}
use vasily.Backend.{Addr, Bytes, Packet, packet_destination_unreachable}
use vasily.Tracer.{
  Probe, Trace, Hop, passed, arrived, gave_up, read_seq, is_timeout, add_step, receive, sent, probe,
  hops, after_probe, advance, after_try, tries,
}

module _ (ask : ℕ → ℕ → Probe) (addr_string : Addr → Bytes) (port_conn : Bool) where
  -- A probe is counted, and may find a host at its hop.
  pub data Probed (t : Trace) (ttl : ℕ) : Trace → Type 0 where
    lost : Probed t ttl (sent ask addr_string port_conn t ttl)
    met :
        (host : Addr)
        → Probed t ttl (
            add_step ask addr_string port_conn
              (sent ask addr_string port_conn t ttl)
              (record { pos_in_path = ttl; host = host }))

  receive-Probed :
      (t : Trace) (ttl : ℕ) (r : Error ⊎ (Packet × Addr))
      → Probed t ttl
          (receive ask addr_string port_conn (sent ask addr_string port_conn t ttl) ttl r).0
  unfolding receive
  receive-Probed t ttl (inl e) = elim (Bool-cases (is_timeout e)) [
    | inl q ↦ rw q lost
    | inr q ↦ rw q lost
  ]
  receive-Probed t ttl (inr (p, peer)) =
      elim (Bool-cases (p.packet_type == packet_destination_unreachable)) [
        | inl q ↦ rw q lost
        | inr q ↦ rw q (met peer)
      ]

  pub probe-Probed : (t : Trace) (ttl : ℕ) → Probed t ttl (probe ask addr_string port_conn t ttl).0
  unfolding probe
  probe-Probed t ttl = elim (Bool-cases (ask t.n_probes ttl).written) [
    | inl q ↦ rw q (receive-Probed t ttl (read_seq (ask t.n_probes ttl).reads (pos (ttl - 1))))
    | inr q ↦ rw q lost
  ]

  -- An invariant at each hop, kept by a probe and by the end of a try.
  module _ (limit : ℕ) (P : ℕ → Trace → Type 0)
      (keep : (ttl : ℕ) (t t' : Trace)
        → ttl < limit
        → P ttl t
        → Probed t (ttl + 1) t'
        → P (ttl + 1) t')
      (turn : (ttl : ℕ) (t : Trace) → P ttl t → P 0 (advance ask addr_string port_conn t)) where
    after_probe-keeps :
        (ttl : ℕ) (r : Trace × Hop) (next : Trace → Trace × Hop)
        → ((t : Trace) → P ttl t → (last : ℕ) × P last (next t).0)
        → P ttl r.0
        → (last : ℕ) × P last (after_probe ask addr_string port_conn r next).0
    after_probe-keeps ttl (t, passed) next rest h = rest t h
    after_probe-keeps ttl (t, arrived) next rest h = (ttl, h)
    after_probe-keeps ttl (t, gave_up e) next rest h = (ttl, h)

    hops-keeps :
        (left ttl : ℕ) (t : Trace)
        → left + ttl ≡ limit
        → P ttl t
        → (last : ℕ) × P last (hops ask addr_string port_conn left (ttl + 1) t).0
    unfolding hops
    hops-keeps zero ttl t s h = (ttl, h)
    hops-keeps (suc left) ttl t s h =
        after_probe-keeps (ttl + 1) (probe ask addr_string port_conn t (ttl + 1))
          (hops ask addr_string port_conn left (ttl + 1 + 1))
          (λ t'. hops-keeps left (ttl + 1) t' (omega arith))
          (keep ttl t _ (omega arith) h (probe-Probed t (ttl + 1)))

    after_try-keeps :
        (ttl : ℕ) (r : Trace × Hop) (next : Trace → Trace × Option Error)
        → ((t : Trace) → P 0 t → (last : ℕ) × P last (next t).0)
        → P ttl r.0
        → (last : ℕ) × P last (after_try ask addr_string port_conn r next).0
    after_try-keeps ttl (t, passed) next rest h = (0, turn ttl t h)
    after_try-keeps ttl (t, arrived) next rest h = rest _ (turn ttl t h)
    after_try-keeps ttl (t, gave_up e) next rest h = (ttl, h)

    pub tries-keeps :
        (left : ℕ) (t : Trace)
        → P 0 t
        → (last : ℕ) × P last (tries ask addr_string port_conn left limit t).0
    unfolding tries
    tries-keeps zero t h = (0, h)
    tries-keeps (suc left) t h =
        let (last, h) = hops-keeps limit 0 t (omega arith) h in
        after_try-keeps last (hops ask addr_string port_conn limit 1 t)
          (tries ask addr_string port_conn left limit) (tries-keeps left) h
