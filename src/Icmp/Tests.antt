-- ===== src/Icmp/Tests.antt =====
-- A ping and its reply, in a toy format: an id, a sequence number and the data.
use vasily.Base.{
  ℕ, ◌%◌, ◌^◌, ltb, Bool, true, some, [], ◌∷◌, Result, ok, err, bad_packet, marshal_failed,
  ok-injective, ◌≡◌, refl, sym, ap, ◌∙◌, arith,
}
use vasily.Base.Int.{ℤ, pos, negsuc}
use vasily.Backend.{Bytes, Packet}
use vasily.Sockets.{Socket}
use vasily.Icmppkt.{IcmpMessage, ipv4_echo, ipv4_echo_reply, echo, Parsers}
use vasily.Icmpbase.{same_key}
use vasily.Icmpbase.Reading.{received, read_normal}
use vasily.Icmp.{PingConn, base_new, EchoRequest, request_of, write_to}
use vasily.Icmp.Answers.{IsEcho, write_to-read_normal}

abbrev toy_bytes : ℕ → ℤ → Bytes → Result Bytes
toy_bytes id (pos s) contents = ok (id % 2 ^ 16 ∷ s % 2 ^ 16 ∷ contents)
toy_bytes id (negsuc s) contents = err marshal_failed

abbrev toy_marshal : EchoRequest → Result Bytes
toy_marshal r = toy_bytes r.id r.seq r.contents

abbrev toy_reply : Bytes → Result IcmpMessage
toy_reply (id ∷ s ∷ contents) =
    ok (record { icmp_type = ipv4_echo_reply; code = 0; body = echo id s contents })
toy_reply _ = err bad_packet

abbrev toy : Parsers
toy = record {
  parse_message = λ proto b. toy_reply b;
  parse_header_v4 = λ b. err bad_packet;
  parse_header_v6 = λ b. err bad_packet;
}

abbrev mirror : Bytes → Bytes
mirror b = b

toy-IsEcho : IsEcho toy 1 ipv4_echo toy_marshal mirror
toy-IsEcho r buf s t m q =
    ap toy_reply (sym (ok-injective (sym (ap (λ z. toy_bytes r.id z r.contents) q) ∙ m)))

abbrev socket : Socket ℤ
socket = record { ttl = λ w. ok w; set_ttl = λ n w. (true, n); send = λ buf dest port w. (true, w) }

abbrev allow : ℤ → Bool × ℤ
allow w = (true, w)

abbrev mk_conn : ℕ → ℕ → ℕ → Result ℕ
mk_conn ip_ver id proto = ok 65543

abbrev conn : PingConn
conn = record { ip_ver = 4; icmp_type = ipv4_echo; echo_id = 65543 }

abbrev host : Bytes
host = 192 ∷ 0 ∷ 2 ∷ 1 ∷ []

abbrev ping : Packet
ping = record { packet_type = 0; seq = pos 5; payload = 9 ∷ [] }

-- An id of more than 16 bits: the reply is for the listener 7, and not for this connection.
write_to-read_normal_example :
    (buf : Bytes) × (toy_marshal (request_of conn ping) ≡ ok buf)
    × (read_normal toy 1 4 (received (mirror buf) host)
        ≡ some (
            ok (record {
              packet = record { packet_type = 1; seq = pos 5; payload = 9 ∷ [] };
              peer = host;
              key = record { id = 65543 % 2 ^ 16; proto = 1 };
            })))
    × (same_key (record { id = 65543 % 2 ^ 16; proto = 1 }) (record { id = 65543; proto = 1 })
        ≡ ltb 65543 (2 ^ 16))
unfolding base_new write_to
write_to-read_normal_example =
    write_to-read_normal socket allow toy_marshal mirror mk_conn toy 4 1 0 5 conn ping host host []
      (pos 64) (pos 64) refl refl toy-IsEcho refl (omega arith) refl
