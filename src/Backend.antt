-- ===== src/Backend.antt =====
-- internal/backend/backend.go: packets and the type codes they carry.
pub mod Registry
use vasily.Base.{ℕ, List, [], ◌∷◌}
use vasily.Base.Int.{ℤ}

abbrev pub Bytes : Type 0
Bytes = List ℕ

-- `PacketType` is an int that may hold any byte read off the wire, so it stays a number.
abbrev pub packet_request : ℕ
packet_request = 0

abbrev pub packet_reply : ℕ
packet_reply = 1

abbrev pub packet_time_exceeded : ℕ
packet_time_exceeded = 2

abbrev pub packet_destination_unreachable : ℕ
packet_destination_unreachable = 3

pub record Packet : Type 0 where
  pub packet_type : ℕ
  pub seq : ℤ
  pub payload : Bytes

-- A `net.Addr` is the bytes of its IP.
abbrev pub Addr : Type 0
Addr = Bytes

-- The options of `Conn.WriteTo`; `TTLOption` is the only one.
pub data WriteOption : Type 0 where
  ttl_option : ℤ → WriteOption

-- The loop of a `WriteTo` over its options: the last one counts.
unfoldable pub option_ttl : ℤ → List WriteOption → ℤ
option_ttl ttl [] = ttl
option_ttl ttl (ttl_option n ∷ opts) = option_ttl n opts
