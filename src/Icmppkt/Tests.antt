-- ===== src/Icmppkt/Tests.antt =====
-- A router's answer to an echo, in a toy format: one byte before the contents of a message, zero
-- for an echo, and one byte of header before an ICMP message in an IP packet, its protocol.
use vasily.Base.{
  ℕ, zero, suc, ◌≡◌, ◌≢◌, ◌<◌, ◌≤◌, [], ◌∷◌, length, some, Result, ok, err, panic, ok-injective,
  bad_packet, inl, refl, ap, arith,
}
use mathlib.Core.Path.{subst}
use vasily.Base.Int.{pos}
use vasily.Backend.{Bytes}
use vasily.Util.{icmp_proto_num}
use vasily.Icmppkt.{
  IcmpMessage, ipv4_echo, ipv4_time_exceeded, echo, time_exceeded, Parsers, Parsed, handling, parse,
}
use vasily.Icmppkt.Ends.{Documented, Fits, quoted, Agree, parse_ends}
use vasily.Icmppkt.Quoted.{outer_type, Quotes}
use vasily.Icmppkt.Quoting.{parse-Quotes}

abbrev toy_message : Bytes → Result IcmpMessage
toy_message [] = err bad_packet
toy_message (zero ∷ b) = ok (record { icmp_type = ipv4_echo; code = 0; body = echo 7 5 b })
toy_message (suc t ∷ b) =
    ok (record { icmp_type = ipv4_time_exceeded; code = t; body = time_exceeded b })

abbrev toy_header : Bytes → Result (ℕ × ℕ)
toy_header [] = err bad_packet
toy_header (p ∷ b) = ok (p, 1)

abbrev toy : Parsers
toy = record {
  parse_message = λ proto b. toy_message b;
  parse_header_v4 = toy_header;
  parse_header_v6 = λ b. err bad_packet;
}

toy_message-returns : (b : Bytes) → toy_message b ≢ panic
toy_message-returns [] h = cc
toy_message-returns (zero ∷ b) h = cc
toy_message-returns (suc t ∷ b) h = cc

toy_header-returns : (b : Bytes) → toy_header b ≢ panic
toy_header-returns [] h = cc
toy_header-returns (p ∷ b) h = cc

toy_message-Fits :
    (b : Bytes) (m : IcmpMessage)
    → toy_message b ≡ ok m
    → Fits (handling m.icmp_type) m.body × (length (quoted m.body) < length b)
toy_message-Fits [] m h = cc
toy_message-Fits (zero ∷ b) m h =
    subst (λ m. Fits (handling m.icmp_type) m.body × (length (quoted m.body) < suc (length b)))
      (ok-injective h) (tt, omega arith)
toy_message-Fits (suc t ∷ b) m h =
    subst (λ m. Fits (handling m.icmp_type) m.body × (length (quoted m.body) < suc (length b)))
      (ok-injective h) (tt, omega arith)

toy_header-len : (b : Bytes) (p n : ℕ) → toy_header b ≡ ok (p, n) → n ≤ length b
toy_header-len [] p n h = cc
toy_header-len (x ∷ b) p n h =
    subst (λ k. k ≤ suc (length b)) (ap (λ (z : ℕ × ℕ). z.1) (ok-injective h)) (omega arith)

toy-Documented : Documented toy
toy-Documented = record {
  message_returns = λ proto b. toy_message-returns b;
  v4_returns = toy_header-returns;
  v6_returns = λ b h. cc;
  fits = λ proto b m h. (toy_message-Fits b m h).0;
  shorter = λ proto b m h. (toy_message-Fits b m h).1;
  v4_len = toy_header-len;
  v6_len = λ b p h. cc;
}

-- Time exceeded for an echo whose payload is 9.
abbrev expired : Bytes
expired = 11 ∷ 1 ∷ 0 ∷ 9 ∷ []

abbrev expired_packet : Parsed
expired_packet = record {
  packet = record { packet_type = 2; seq = pos 5; payload = 9 ∷ [] };
  id = 7;
  proto = 1;
}

abbrev expired_message : IcmpMessage
expired_message = record {
  icmp_type = ipv4_time_exceeded;
  code = 10;
  body = time_exceeded (1 ∷ 0 ∷ 9 ∷ []);
}

parse_ends_example : Agree (parse toy 5 4 expired) (parse toy 8 4 expired)
parse_ends_example =
    parse_ends toy 4 5 8 expired toy-Documented (inl refl) (omega arith) (omega arith)

parse-Quotes_example :
    Quotes toy 4 expired (record { id = 7; seq = pos 5; payload = 9 ∷ []; proto = 1 })
    × ((own : ℕ) × (m : IcmpMessage) × (icmp_proto_num 4 ≡ ok own)
        × (toy_message expired ≡ ok m)
        × (outer_type 4 m.icmp_type m.code ≡ some 2))
unfolding parse
parse-Quotes_example = parse-Quotes toy 4 5 expired expired_packet refl
