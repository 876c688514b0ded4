-- ===== src/Tracer/Tests.antt =====
-- Traces over small networks.
use vasily.Base.{ℕ, true, Option, none, some, List, [], ◌∷◌, All, arith, ◌≡◌, refl}
use vasily.Base.Int.{pos, pos_part, ◌-ℤ◌}
use vasily.Backend.{Addr, Bytes, Packet, packet_reply}
use vasily.Tracer.{
  Options, Read, got, Trace, max_ttl_of, probes_per_hop_of, trace_route, was_seen, same_key,
}
use vasily.Tracer.Ports.{count_down, trace_route-ports}
use vasily.Tracer.Steps.{AreDistinct, IsBelow, trace_route-AreDistinct}
use vasily.Tracer.Clear.{clear_path, path}
use vasily.Tracer.Paths.{trace_route-path}

abbrev router : ℕ → Addr
router n = 10 ∷ 0 ∷ 0 ∷ n ∷ []

abbrev name : Addr → Bytes
name a = a

-- Two probes per hop, up to hop 4.
abbrev two_probes : Option Options
two_probes = some (record { interval = pos 0; probes_per_hop = pos 2; max_ttl = pos 5 })

abbrev reply_to : ℕ → Packet
reply_to n = record { packet_type = packet_reply; seq = pos n; payload = [] }

abbrev late_then_mine : List Read
late_then_mine = got (reply_to 0) (router 1) ∷ got (reply_to 1) (router 2) ∷ []

trace_route-ports_example :
    let t = (trace_route (clear_path router 3) name true two_probes 33434).0 in
    t.ports ≡ count_down 33434 t.n_probes
trace_route-ports_example = trace_route-ports (clear_path router 3) name two_probes 33434

trace_route-AreDistinct_example :
    let t = (trace_route (clear_path router 3) name true two_probes 33434).0 in
    AreDistinct (clear_path router 3) name true t.steps
    × All
        (IsBelow (clear_path router 3) name true (pos_part (max_ttl_of two_probes -ℤ pos 1)))
        t.steps
trace_route-AreDistinct_example =
    trace_route-AreDistinct (clear_path router 3) name true two_probes 33434

trace_route-path_example :
    (t : Trace) × (trace_route (clear_path router 3) name true two_probes 33434 ≡ (t, none))
    × (t.steps ≡ path router 3)
unfolding max_ttl_of probes_per_hop_of
trace_route-path_example =
    trace_route-path router 3 name true two_probes 33434 1 5 refl refl (omega arith) (omega arith)

-- Six probes, on ports 33434 to 33439.
six_ports :
    (trace_route (clear_path router 3) name true two_probes 33434).0.ports
    ≡ 33439 ∷ 33438 ∷ 33437 ∷ 33436 ∷ 33435 ∷ 33434 ∷ []
unfolding trace_route max_ttl_of probes_per_hop_of was_seen same_key ◌-ℤ◌
six_ports = refl
