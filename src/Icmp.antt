-- ===== src/Icmp.antt =====
-- internal/backend/icmp/icmp.go: pings by ICMP echo.
pub mod Answers
mod Tests
use vasily.Base.{
  ℕ, ◌==◌, Bool, true, false, List, if◌then◌else◌, Result, ok, err, panic, ◌>>=◌, wrong_type,
}
use vasily.Base.Int.{ℤ}
use vasily.Backend.{Addr, Bytes, Packet, packet_request, WriteOption}
use vasily.Sockets.{Socket, Sent}
use vasily.Util.{icmp_proto_num}
use vasily.Icmppkt.{IcmpType, ipv4_echo, ipv6_echo_request}
use vasily.Icmpbase.Writing.{conn_write_to}

-- Of the connection of icmpbase there is its echo id.
pub record PingConn : Type 0 where
  pub ip_ver : ℕ
  pub icmp_type : IcmpType
  pub echo_id : ℕ

abbrev pub request_type : ℕ → IcmpType
request_type ip_ver = if ip_ver == 6 then ipv6_echo_request else ipv4_echo

-- `baseNew`; `mk_conn` makes a connection for a version, an id and a protocol and gives its id.
unfoldable pub base_new : (ℕ → ℕ → ℕ → Result ℕ) → ℕ → Result PingConn
base_new mk_conn ip_ver = do
  proto ← icmp_proto_num ip_ver
  echo_id ← mk_conn ip_ver 0 proto
  ok (record { ip_ver = ip_ver; icmp_type = request_type ip_ver; echo_id = echo_id })

-- The `icmp.Message` of a ping, whose code is 0.
pub record EchoRequest : Type 0 where
  pub icmp_type : IcmpType
  pub id : ℕ
  pub seq : ℤ
  pub contents : Bytes

abbrev pub request_of : PingConn → Packet → EchoRequest
request_of p pkt = record {
  icmp_type = p.icmp_type;
  id = p.echo_id;
  seq = pkt.seq;
  contents = pkt.payload;
}

-- `Marshal` is x/net's, and the rate limiter x/time's.
module _ {W : Type 0} (sock : Socket W) (allow : W → Bool × W)
    (marshal : EchoRequest → Result Bytes) where
  unfoldable pub send_message : Result Bytes → Addr → List WriteOption → W → Sent W
  unfolding conn_write_to
  send_message (ok buf) dest opts w = conn_write_to sock buf dest opts (allow w)
  send_message (err e) dest opts w = (err e, w)
  send_message panic dest opts w = (panic, w)

  unfoldable pub write_to : PingConn → Packet → Addr → List WriteOption → W → Sent W
  unfolding send_message
  write_to p pkt dest opts w =
      if pkt.packet_type == packet_request
      then send_message (marshal (request_of p pkt)) dest opts w
      else (err wrong_type, w)
