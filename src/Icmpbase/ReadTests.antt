-- ===== src/Icmpbase/ReadTests.antt =====
-- A router's answer to an echo, in a toy format: one byte before the contents of a message, zero
-- for an echo, one for a type that is not handled, and one byte of header before an ICMP message in
-- an IP packet, its protocol.
use vasily.Base.{
  ℕ, zero, suc, true, false, some, [], ◌∷◌, ◌++◌, Result, ok, err, bad_packet, unhandled_type, ◌≡◌,
  refl, arith,
}
use vasily.Base.Int.{pos}
use vasily.Backend.{Bytes}
use vasily.Sockets.{SocketError}
use vasily.Icmppkt.{
  IcmpMessage, ipv4_echo, ipv4_time_exceeded, other_type, echo, time_exceeded, other_body, Parsers,
  Parsed, SockExtendedErr, ip_header, parse,
}
use vasily.Icmppkt.ErrorQueue.{v4_exceeded}
use vasily.Icmppkt.Reporting.{IsReported}
use vasily.Icmppkt.Linux.{ControlMessage, ControlParsers}
use vasily.Icmpbase.Reading.{
  Message, received, failed, read_normal, read_linux, read_linux-read_normal,
}
use vasily.Icmpbase.ReadLoop.{read_loop, read_loop_unhandled}

abbrev toy_message : Bytes → Result IcmpMessage
toy_message [] = err bad_packet
toy_message (zero ∷ b) = ok (record { icmp_type = ipv4_echo; code = 0; body = echo 7 5 b })
toy_message (suc zero ∷ b) = ok (record { icmp_type = other_type 1; code = 0; body = other_body })
toy_message (suc (suc t) ∷ b) =
    ok (record { icmp_type = ipv4_time_exceeded; code = 0; body = time_exceeded b })

abbrev toy_header : Bytes → Result (ℕ × ℕ)
toy_header [] = err bad_packet
toy_header (p ∷ b) = ok (p, 1)

abbrev toy : Parsers
toy = record {
  parse_message = λ proto b. toy_message b;
  parse_header_v4 = toy_header;
  parse_header_v6 = λ b. err bad_packet;
}

abbrev router : Bytes
router = 198 ∷ 51 ∷ 100 ∷ 1 ∷ []

-- Time exceeded for an echo whose payload is 9, and the error in the queue.
abbrev expired : Bytes
expired = 11 ∷ 1 ∷ 0 ∷ 9 ∷ []

abbrev echoed : Parsed
echoed = record {
  packet = record { packet_type = 0; seq = pos 5; payload = 9 ∷ [] };
  id = 7;
  proto = 1;
}

abbrev expired_error : SockExtendedErr
expired_error = record { origin = 2; ext_type = 11; code = 0 }

abbrev queued : ControlMessage
queued = record { level = 0; typ = 11; contents = [] }

abbrev control : ControlParsers
control = record {
  parse_control = λ b. ok (queued ∷ []);
  decode_ext_err = λ b. ok expired_error;
  offender = λ b. ok router;
}

abbrev host_unreachable : SocketError
host_unreachable = record { ehostunreach = true; op_error = true; times_out = false }

expired_header : ip_header toy 4 (1 ∷ 0 ∷ 9 ∷ []) ≡ ok (1, 1)
unfolding ip_header
expired_header = refl

abbrev report : IsReported toy 4 2 11 expired 1 1
report = record {
  own = 1;
  m = record { icmp_type = ipv4_time_exceeded; code = 0; body = time_exceeded (1 ∷ 0 ∷ 9 ∷ []) };
  version = refl;
  parsed = refl;
  fits = tt;
  reports = v4_exceeded refl;
  header = expired_header;
  within = omega arith;
}

read_linux-read_normal_example :
    (x : Message) × (read_normal toy 2 4 (received expired router) ≡ some (ok x))
    × (read_linux toy 1 4 control 7
          (failed host_unreachable)
          (record { syscall_conn = ok tt; raw_read = ok tt; recvmsg = ok (0 ∷ 9 ∷ [], []) })
        ≡ some (ok x))
    × (x.packet.seq ≡ pos 5)
    × (x.key ≡ record { id = 7; proto = 1 })
unfolding parse
read_linux-read_normal_example =
    read_linux-read_normal toy control 4 2 11 1 1 1 expired [] router host_unreachable echoed report
      refl (record { scm = queued; one = refl; queued = refl; decoded = refl; address = refl }) refl
      refl

-- An echo is handed on, then a message of another type ends the loop.
abbrev pong : Message
pong = record { packet = echoed.packet; peer = router; key = record { id = 7; proto = 1 } }

read_loop_unhandled_example :
    (read_normal toy 1 4 (received (1 ∷ []) router) ≡ some (err unhandled_type))
    × (read_loop ((ok pong ∷ []) ++ (err unhandled_type ∷ ok pong ∷ [])) ≡ read_loop (ok pong ∷ []))
read_loop_unhandled_example =
    read_loop_unhandled toy 0 4 1 (1 ∷ []) router
      (record { icmp_type = other_type 1; code = 0; body = other_body }) (ok pong ∷ [])
      (ok pong ∷ []) refl refl refl
