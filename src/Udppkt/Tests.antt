-- ===== src/Udppkt/Tests.antt =====
-- A header for traceroute's first port.
use vasily.Base.{◌+◌, ◌-◌, ◌%◌, ◌^◌, ◌≢◌, [], ◌∷◌, arith}
use vasily.Backend.{Bytes}
use vasily.Udppkt.{UdpHeader, PseudoHeader, ipv4, calc_checksum_v4}
use vasily.Udppkt.Sums.{total_v4, calc_checksum_v4_rejected}

abbrev probe_header : UdpHeader
probe_header = record { src_port = 4000; dst_port = 33434; total_len = 8; checksum = 0 }

abbrev host : Bytes
host = 192 ∷ 0 ∷ 2 ∷ 1 ∷ []

abbrev to_host : PseudoHeader
to_host = ipv4 host host 17 20

calc_checksum_v4_rejected_example :
    (total_v4 probe_header host host 17 20
        + (calc_checksum_v4 probe_header host host 17 20).checksum)
      % (2 ^ 16 - 1)
    ≢ 0
calc_checksum_v4_rejected_example =
    calc_checksum_v4_rejected probe_header host host 17 20 (omega arith) (omega arith)
      (λ e. absurd (omega arith))
