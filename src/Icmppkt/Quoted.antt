-- ===== src/Icmppkt/Quoted.antt =====
-- internal/util/icmppkt: what a message quotes, as a relation, and the steps of `Parse`.
use vasily.Base.{
  ℕ, Option, none, some, some_injective, drop, if-eq, Result, ok, err, panic, >>=-eq-ok,
  ok-injective, ◌≡◌, inl, inr, refl, sym, ap,
}
use vasily.Base.Int.{ℤ, pos}
use vasily.Backend.{Bytes, packet_request, packet_reply, packet_time_exceeded}
use vasily.Udppkt.{UdpHeader, parse_udp_header}
use vasily.Util.{icmp_proto_num}
use vasily.Icmppkt.{
  IcmpType, ipv4_echo, ipv4_echo_reply, ipv4_destination_unreachable, ipv4_time_exceeded,
  ipv6_echo_request, ipv6_echo_reply, ipv6_destination_unreachable, ipv6_time_exceeded, other_type,
  protocol, echo, IcmpMessage, Parsers, Parsed, slice, decode_udp, lift, ip_header, with_type,
  unreachable_type,
}
use vasily.Icmppkt.Ends.{quoted}

-- The packet type for a message's type and code.
abbrev pub outer_type : ℕ → IcmpType → ℕ → Option ℕ
outer_type ip_ver ipv4_echo code = some packet_request
outer_type ip_ver ipv6_echo_request code = some packet_request
outer_type ip_ver ipv4_echo_reply code = some packet_reply
outer_type ip_ver ipv6_echo_reply code = some packet_reply
outer_type ip_ver ipv4_time_exceeded code = some packet_time_exceeded
outer_type ip_ver ipv6_time_exceeded code = some packet_time_exceeded
outer_type ip_ver ipv4_destination_unreachable code = some (unreachable_type ip_ver code)
outer_type ip_ver ipv6_destination_unreachable code = some (unreachable_type ip_ver code)
outer_type ip_ver (other_type proto) code = none

-- A packet but for its type: id, sequence number, payload and protocol.
pub record Probe : Type 0 where
  pub id : ℕ
  pub seq : ℤ
  pub payload : Bytes
  pub proto : ℕ

abbrev pub probe_of : Parsed → Probe
probe_of p = record { id = p.id; seq = p.packet.seq; payload = p.packet.payload; proto = p.proto }

-- The ICMP message in the buffer is an echo, or quotes an IP packet with a UDP packet or with an
-- ICMP message for which the same holds.
pub data Quotes (ps : Parsers) (ip_ver : ℕ) : Bytes → Probe → Type 0 where
  echoed :
      {buf : Bytes} {q : Probe} (own id seq : ℕ) (payload : Bytes) (m : IcmpMessage)
      → icmp_proto_num ip_ver ≡ ok own
      → ps.parse_message own buf ≡ ok m
      → m.body ≡ echo id seq payload
      → q ≡ record { id = id; seq = pos seq; payload = payload; proto = protocol m.icmp_type }
      → Quotes ps ip_ver buf q
  quotes_udp :
      {buf : Bytes} {q : Probe} (own len : ℕ) (m : IcmpMessage) (h : UdpHeader)
      → icmp_proto_num ip_ver ≡ ok own
      → ps.parse_message own buf ≡ ok m
      → ip_header ps ip_ver (quoted m.body) ≡ ok (17, len)
      → parse_udp_header (drop len (quoted m.body)) ≡ ok h
      → q ≡ record {
        id = h.src_port;
        seq = pos h.dst_port;
        payload = drop 8 (drop len (quoted m.body));
        proto = 17;
      }
      → Quotes ps ip_ver buf q
  quotes_icmp :
      {buf : Bytes} {q : Probe} (own len : ℕ) (m : IcmpMessage)
      → icmp_proto_num ip_ver ≡ ok own
      → ps.parse_message own buf ≡ ok m
      → ip_header ps ip_ver (quoted m.body) ≡ ok (own, len)
      → Quotes ps ip_ver (drop len (quoted m.body)) q
      → Quotes ps ip_ver buf q

pub lift-eq {ℓ} :
    {A : Type ℓ} (a : Result A) (f : A → Option (Result Parsed)) {p : Parsed}
    → lift a f ≡ some (ok p)
    → (x : A) × (a ≡ ok x) × (f x ≡ some (ok p))
lift-eq (ok x) f h = (x, refl, h)
lift-eq (err e) f h = cc
lift-eq panic f h = cc

pub with_type-eq :
    (t : ℕ) (x : Option (Result Parsed)) (p : Parsed)
    → with_type t x ≡ some (ok p)
    → (v : Parsed) × (x ≡ some (ok v)) × (probe_of v ≡ probe_of p) × (p.packet.packet_type ≡ t)
with_type-eq t (some (ok v)) p h =
    let e = ok-injective (some_injective h) in
    (v, refl, ap probe_of e, ap (λ (z : Parsed). z.packet.packet_type) (sym e))
with_type-eq t (some (err e)) p h = cc
with_type-eq t (some panic) p h = cc
with_type-eq t none p h = cc

pub slice-eq : (b c : Bytes) (n : ℕ) → slice b n ≡ ok c → drop n b ≡ c
slice-eq b c n h = elim (if-eq _ (ok (drop n b)) panic h) [
  | inl (q, e) ↦ ok-injective e
  | inr (q, e) ↦ cc
]

pub decode_udp-eq :
    (b : Bytes) (p : Parsed)
    → decode_udp b ≡ ok p
    → (h : UdpHeader) × (parse_udp_header b ≡ ok h)
      × (probe_of p
          ≡ record { id = h.src_port; seq = pos h.dst_port; payload = drop 8 b; proto = 17 })
unfolding decode_udp
decode_udp-eq b p h =
    let (u, e, k) = >>=-eq-ok (parse_udp_header b) _ h in (u, e, ap probe_of (sym (ok-injective k)))
