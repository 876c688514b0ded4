-- ===== src/Udp/Tests.antt =====
-- A probe of traceroute and the answer of a router.
use vasily.Base.{
  ℕ, Bool, true, false, some, [], ◌∷◌, ◌++◌, ◌≡◌, refl, sym, ap, ok, err, bad_packet, arith,
}
use vasily.Base.Int.{ℤ, pos, ◌+ℤ◌}
use vasily.Backend.{Bytes, Packet, ttl_option, option_ttl}
use vasily.Sockets.{Socket, SocketError, IsKernel, SentWith}
use vasily.Udppkt.{UdpHeader, other, marshal}
use vasily.Icmppkt.{ipv4_time_exceeded, time_exceeded, Parsers, Parsed, ip_header, parse}
use vasily.Icmppkt.{SockExtendedErr}
use vasily.Icmppkt.ErrorQueue.{v4_exceeded}
use vasily.Icmppkt.Reporting.{IsReported}
use vasily.Icmppkt.Linux.{ControlMessage, ControlParsers}
use vasily.Udp.Linux.{failed, inet4, read_linux, read_linux-read_from}
use vasily.Udp.{new_conn, write_to, read_from}
use vasily.Udp.Ports.{write_to-option_ttl}

abbrev host : Bytes
host = 192 ∷ 0 ∷ 2 ∷ 1 ∷ []

abbrev probe_header : UdpHeader
probe_header = record { src_port = 4000; dst_port = 33436; total_len = 8; checksum = 0 }

abbrev quote : Bytes
quote = marshal probe_header other ++ (1 ∷ [])

-- Parsers that know this message.
abbrev router : Parsers
router = record {
  parse_message = λ proto b.
      ok (record { icmp_type = ipv4_time_exceeded; code = 0; body = time_exceeded quote });
  parse_header_v4 = λ b. ok (17, 0);
  parse_header_v6 = λ b. err bad_packet;
}

-- The world is the time to live.
abbrev socket : Socket ℤ
socket = record { ttl = λ w. ok w; set_ttl = λ n w. (true, n); send = λ buf dest port w. (true, w) }

socket-IsKernel : IsKernel socket
socket-IsKernel = record {
  sets = λ n w w' h. ap (λ (x : Bool × ℤ). ok x.1) (sym h);
  leaves = λ n w w' h. cc;
  accepts = λ n w v h. refl;
  sending = λ buf dest port w. refl;
}

abbrev probe : Packet
probe = record { packet_type = 0; seq = pos 2; payload = 1 ∷ [] }

write_to-option_ttl_example :
    SentWith socket
      (1 ∷ [])
      host
      (pos 33434 +ℤ pos 2)
      (option_ttl (pos 64) (ttl_option (pos 3) ∷ []))
      ((write_to socket new_conn probe host (ttl_option (pos 3) ∷ []) (pos 64)).0)
    × (ok ((write_to socket new_conn probe host (ttl_option (pos 3) ∷ []) (pos 64)).1)
        ≡ ok (pos 64))
write_to-option_ttl_example =
    write_to-option_ttl socket new_conn probe host (ttl_option (pos 3) ∷ []) (pos 64) (pos 64)
      socket-IsKernel (λ n w. refl) refl

-- The same answer on Linux.
abbrev expired_error : SockExtendedErr
expired_error = record { origin = 2; ext_type = 11; code = 0 }

abbrev queued : ControlMessage
queued = record { level = 0; typ = 11; contents = [] }

abbrev control : ControlParsers
control = record {
  parse_control = λ b. ok (queued ∷ []);
  decode_ext_err = λ b. ok expired_error;
  offender = λ b. ok host;
}

abbrev host_unreachable : SocketError
host_unreachable = record { ehostunreach = true; op_error = true; times_out = false }

quote_header : ip_header router 4 quote ≡ ok (17, 0)
unfolding ip_header
quote_header = refl

abbrev report : IsReported router 4 2 11 [] 17 0
report = record {
  own = 1;
  m = record { icmp_type = ipv4_time_exceeded; code = 0; body = time_exceeded quote };
  version = refl;
  parsed = refl;
  fits = tt;
  reports = v4_exceeded refl;
  header = quote_header;
  within = omega arith;
}

read_linux-read_from_example :
    (t : ℕ) × (p : Parsed) × (parse router 1 4 [] ≡ some (ok p))
    × (p.id ≡ 4000)
    × (read_from new_conn p.packet ≡ record { packet_type = t; seq = pos 2; payload = 1 ∷ [] })
    × (read_linux control 4 new_conn (ok tt) (failed host_unreachable) (some ([], inet4 33436))
        ≡ ok (record { packet_type = t; seq = pos 2; payload = [] }, host))
unfolding ◌+ℤ◌
read_linux-read_from_example =
    read_linux-read_from router control 4 2 11 0 0 [] [] (1 ∷ []) host host_unreachable probe_header
      other new_conn (pos 2) report
      (record { scm = queued; one = refl; queued = refl; decoded = refl; address = refl })
      (record { src = omega arith; dst = omega arith; len = omega arith; check = omega arith }) refl
      refl refl refl
