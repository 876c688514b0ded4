-- ===== src/Icmppkt.antt =====
-- internal/util/icmppkt: from an ICMP message to the packet that it answers.
pub mod Ends
pub mod Quoted
pub mod Quoting
pub mod ErrorQueue
pub mod Reporting
pub mod Linux
mod Tests
use vasily.Base.{
  ℕ, zero, suc, ◌==◌, leb, Bool, true, false, ◌||◌, ◌&&◌, Option, none, some, List, length, drop,
  if◌then◌else◌, Result, ok, err, panic, unhandled_type, unrecognized_proto, unrecognized_origin,
  ◌>>=◌,
}
use vasily.Base.Int.{ℤ, pos}
use vasily.Backend.{
  Bytes, Packet, packet_request, packet_reply, packet_time_exceeded, packet_destination_unreachable,
}
use vasily.Util.{icmp_proto_num}
use vasily.Udppkt.{UdpHeader, parse_udp_header}

-- `icmp.Type`: the constants of x/net that are named here, and any other type of a protocol.
pub data IcmpType : Type 0 where
  ipv4_echo ipv4_echo_reply ipv4_destination_unreachable ipv4_time_exceeded : IcmpType
  ipv6_echo_request ipv6_echo_reply ipv6_destination_unreachable ipv6_time_exceeded : IcmpType
  other_type : ℕ → IcmpType

-- `icmp.MessageBody`
pub data MessageBody : Type 0 where
  echo : ℕ → ℕ → Bytes → MessageBody
  dst_unreach : Bytes → MessageBody
  time_exceeded : Bytes → MessageBody
  other_body : MessageBody

-- `icmp.Message`
pub record IcmpMessage : Type 0 where
  pub icmp_type : IcmpType
  pub code : ℕ
  pub body : MessageBody

-- The parsers of x/net: `icmp.ParseMessage` and the two `ParseHeader`, of which the protocol of the
-- payload is used, and for IPv4 the length.
pub record Parsers : Type 0 where
  pub parse_message : ℕ → Bytes → Result IcmpMessage
  pub parse_header_v4 : Bytes → Result (ℕ × ℕ)
  pub parse_header_v6 : Bytes → Result ℕ

-- What `Parse` returns without an error.
pub record Parsed : Type 0 where
  pub packet : Packet
  pub id : ℕ
  pub proto : ℕ

-- `Type.Protocol`
abbrev pub protocol : IcmpType → ℕ
protocol ipv4_echo = 1
protocol ipv4_echo_reply = 1
protocol ipv4_destination_unreachable = 1
protocol ipv4_time_exceeded = 1
protocol ipv6_echo_request = 58
protocol ipv6_echo_reply = 58
protocol ipv6_destination_unreachable = 58
protocol ipv6_time_exceeded = 58
protocol (other_type proto) = proto

abbrev pub echo_type : IcmpType → Result ℕ
echo_type ipv4_echo = ok packet_request
echo_type ipv6_echo_request = ok packet_request
echo_type ipv4_echo_reply = ok packet_reply
echo_type ipv6_echo_reply = ok packet_reply
echo_type _ = panic

-- A type assertion panics on another body.
unfoldable pub echo_to_packet : IcmpType → MessageBody → Result Parsed
echo_to_packet t (echo id seq contents) = do
  packet_type ← echo_type t
  ok (record {
    packet = record { packet_type = packet_type; seq = pos seq; payload = contents };
    id = id;
    proto = protocol t;
  })
echo_to_packet t (dst_unreach contents) = panic
echo_to_packet t (time_exceeded contents) = panic
echo_to_packet t other_body = panic

-- `buf[n:]`
abbrev pub slice : Bytes → ℕ → Result Bytes
slice buf n = if leb n (length buf) then ok (drop n buf) else panic

-- The payload is what is behind the eight bytes of the header, which may be nothing.
unfoldable pub decode_udp : Bytes → Result Parsed
decode_udp buf = do
  udph ← parse_udp_header buf
  ok (record {
    packet = record { packet_type = packet_request; seq = pos udph.dst_port; payload = drop 8 buf };
    id = udph.src_port;
    proto = 17;
  })

-- A step that may fail before one that may run out of fuel.
abbrev pub lift {ℓ κ} :
    {A : Type ℓ} {B : Type κ} → Result A → (A → Option (Result B)) → Option (Result B)
lift (ok a) next = next a
lift (err e) next = some (err e)
lift panic next = some panic

-- Protocol and length of an IP header.
unfoldable pub ip_header : Parsers → ℕ → Bytes → Result (ℕ × ℕ)
ip_header ps ip_ver buf =
    if ip_ver == 4
    then ps.parse_header_v4 buf
    else if ip_ver == 6
    then (do proto ← ps.parse_header_v6 buf; ok (proto, 40))
    else panic

-- The second switch of `ipBodyToPacket`; `parse` reads the ICMP message that is in there.
unfoldable pub by_proto :
    (Bytes → Option (Result Parsed)) → ℕ → Bytes → ℕ × ℕ → Option (Result Parsed)
unfolding decode_udp
by_proto parse own buf (proto, header_len) =
    if proto == own
    then lift (slice buf header_len) parse
    else if proto == 17
    then lift (slice buf header_len) (λ b. some (decode_udp b))
    else some (err unrecognized_proto)

unfoldable pub ip_body_to_packet :
    Parsers → (Bytes → Option (Result Parsed)) → ℕ → Bytes → Option (Result Parsed)
unfolding ip_header by_proto
ip_body_to_packet ps parse ip_ver buf =
    lift (ip_header ps ip_ver buf)
      (λ h. lift (icmp_proto_num ip_ver) (λ own. by_proto parse own buf h))

-- `pkt.Type = t` where there is a packet.
abbrev pub with_type : ℕ → Option (Result Parsed) → Option (Result Parsed)
with_type t (some (ok p)) = some (ok (record p { packet = record p.packet { packet_type = t } }))
with_type t (some (err e)) = some (err e)
with_type t (some panic) = some panic
with_type t none = none

-- A closed port answers, so the host was reached.
abbrev pub unreachable_type : ℕ → ℕ → ℕ
unreachable_type ip_ver code =
    if (ip_ver == 4 && code == 3) || (ip_ver == 6 && code == 4)
    then packet_reply
    else packet_destination_unreachable

unfoldable pub dest_unreachable_to_packet :
    Parsers → (Bytes → Option (Result Parsed)) → ℕ → ℕ → MessageBody → Option (Result Parsed)
unfolding ip_body_to_packet
dest_unreachable_to_packet ps parse ip_ver code (dst_unreach contents) =
    with_type (unreachable_type ip_ver code) (ip_body_to_packet ps parse ip_ver contents)
dest_unreachable_to_packet ps parse ip_ver code (echo id seq contents) = some panic
dest_unreachable_to_packet ps parse ip_ver code (time_exceeded contents) = some panic
dest_unreachable_to_packet ps parse ip_ver code other_body = some panic

unfoldable pub time_exceeded_to_packet :
    Parsers → (Bytes → Option (Result Parsed)) → ℕ → MessageBody → Option (Result Parsed)
unfolding ip_body_to_packet
time_exceeded_to_packet ps parse ip_ver (time_exceeded contents) =
    with_type packet_time_exceeded (ip_body_to_packet ps parse ip_ver contents)
time_exceeded_to_packet ps parse ip_ver (echo id seq contents) = some panic
time_exceeded_to_packet ps parse ip_ver (dst_unreach contents) = some panic
time_exceeded_to_packet ps parse ip_ver other_body = some panic

-- The three groups of `Parse`'s switch.
pub data Handling : Type 0 where
  echoes unreachables exceeds unhandled : Handling

abbrev pub handling : IcmpType → Handling
handling ipv4_echo = echoes
handling ipv4_echo_reply = echoes
handling ipv6_echo_request = echoes
handling ipv6_echo_reply = echoes
handling ipv4_destination_unreachable = unreachables
handling ipv6_destination_unreachable = unreachables
handling ipv4_time_exceeded = exceeds
handling ipv6_time_exceeded = exceeds
handling (other_type proto) = unhandled

unfoldable pub handle_type :
    Parsers → (Bytes → Option (Result Parsed)) → ℕ → IcmpMessage → Handling → Option (Result Parsed)
unfolding echo_to_packet dest_unreachable_to_packet time_exceeded_to_packet
handle_type ps parse ip_ver rm echoes = some (echo_to_packet rm.icmp_type rm.body)
handle_type ps parse ip_ver rm unreachables =
    dest_unreachable_to_packet ps parse ip_ver rm.code rm.body
handle_type ps parse ip_ver rm exceeds = time_exceeded_to_packet ps parse ip_ver rm.body
handle_type ps parse ip_ver rm unhandled = some (err unhandled_type)

-- On fuel, which is the depth of messages within messages; nothing when it is used up.
unfoldable pub parse : Parsers → ℕ → ℕ → Bytes → Option (Result Parsed)
unfolding handle_type
parse ps zero ip_ver buf = none
parse ps (suc fuel) ip_ver buf = lift (icmp_proto_num ip_ver) (λ proto.
    lift (ps.parse_message proto buf)
      (λ rm. handle_type ps (parse ps fuel ip_ver) ip_ver rm (handling rm.icmp_type)))

-- icmppkt_linux.go: `unix.SockExtendedErr` and `packetType`. The origins are SO_EE_ORIGIN_ICMP, 2,
-- and SO_EE_ORIGIN_ICMP6, 3.
pub record SockExtendedErr : Type 0 where
  pub origin : ℕ
  pub ext_type : ℕ
  pub code : ℕ

abbrev pub packet_type_v4 : ℕ → ℕ → Result ℕ
packet_type_v4 typ code =
    if typ == 11
    then ok packet_time_exceeded
    else if typ == 3
    then (if code == 3 then ok packet_reply else ok packet_destination_unreachable)
    else err unhandled_type

abbrev pub packet_type_v6 : ℕ → ℕ → Result ℕ
packet_type_v6 typ code =
    if typ == 3
    then ok packet_time_exceeded
    else if typ == 1
    then (if code == 4 then ok packet_reply else ok packet_destination_unreachable)
    else err unhandled_type

unfoldable pub packet_type : SockExtendedErr → Result ℕ
packet_type e =
    if e.origin == 2
    then packet_type_v4 e.ext_type e.code
    else if e.origin == 3
    then packet_type_v6 e.ext_type e.code
    else err unrecognized_origin

-- `isRecvErrMessage` on the level and type of the first header: IP_RECVERR is 11, IPV6_RECVERR 25.
abbrev pub is_recv_err_message : ℕ → ℕ → Bool
is_recv_err_message level typ = (typ == 11 && level == 0) || (typ == 25 && level == 41)
