-- ===== src/Udppkt.antt =====
-- internal/util/udppkt/udppkt.go: UDP headers and their checksum.
pub mod Headers
pub mod Sums
mod Tests
use vasily.Base.{ℕ, ◌+◌, ◌*◌, ◌/◌, ◌%◌, ◌^◌, List, [], ◌∷◌, Result, ok, err, eof, unexpected_eof}
use vasily.Backend.{Bytes}

-- `uint` has 64 bits.
abbrev pub add : ℕ → ℕ → ℕ
add c x = (c + x) % 2 ^ 64

-- A byte at the end without a partner counts as the high one.
unfoldable pub add_bytes : ℕ → Bytes → ℕ
add_bytes c [] = c
add_bytes c (x ∷ []) = add c (x * 2 ^ 8)
add_bytes c (x ∷ y ∷ b) = add_bytes (add c (x * 2 ^ 8 + y)) b

unfoldable pub add_uint16 : ℕ → ℕ → ℕ
add_uint16 c i = add c i

unfoldable pub add_uint32 : ℕ → ℕ → ℕ
add_uint32 c i = add (add c (i / 2 ^ 16)) (i % 2 ^ 16)

-- One carry is folded in.
unfoldable pub sum : ℕ → ℕ
sum c = (c % 2 ^ 16 + c / 2 ^ 16) % 2 ^ 16

pub record UdpHeader : Type 0 where
  pub src_port : ℕ
  pub dst_port : ℕ
  pub total_len : ℕ
  pub checksum : ℕ

-- The fields that are used of the IP headers of x/net, addresses as `To4` and `To16` return them.
pub data PseudoHeader : Type 0 where
  ipv4 : Bytes → Bytes → ℕ → ℕ → PseudoHeader
  ipv6 : Bytes → Bytes → ℕ → PseudoHeader
  other : PseudoHeader

unfoldable pub add_udp_fields : UdpHeader → ℕ → UdpHeader
unfolding add_uint16 sum
add_udp_fields h c = record h {
  checksum = sum (add_uint16 (add_uint16 (add_uint16 c h.src_port) h.dst_port) h.total_len);
}

unfoldable pub calc_checksum_v4 : UdpHeader → Bytes → Bytes → ℕ → ℕ → UdpHeader
unfolding add_udp_fields add_uint16 add_bytes
calc_checksum_v4 h src dst protocol len =
    add_udp_fields h
      (add_uint16 (add_uint16 (add_bytes (add_bytes 0 src) dst) (protocol % 2 ^ 16)) (len % 2 ^ 16))

unfoldable pub calc_checksum_v6 : UdpHeader → Bytes → Bytes → ℕ → UdpHeader
unfolding add_udp_fields add_uint32 add_bytes
calc_checksum_v6 h src dst payload_len =
    add_udp_fields h (add_uint32 (add_bytes (add_bytes 0 src) dst) (payload_len % 2 ^ 32))

-- The header that `Marshal` leaves behind: any other pseudo header keeps the checksum as it is.
unfoldable pub with_checksum : UdpHeader → PseudoHeader → UdpHeader
unfolding calc_checksum_v4 calc_checksum_v6
with_checksum h (ipv4 src dst protocol len) = calc_checksum_v4 h src dst protocol len
with_checksum h (ipv6 src dst payload_len) = calc_checksum_v6 h src dst payload_len
with_checksum h other = h

-- `binary.Encode` of the four numbers in big-endian order.
unfoldable pub encode : UdpHeader → Bytes
encode h =
    h.src_port / 2 ^ 8
    ∷ h.src_port % 2 ^ 8
    ∷ h.dst_port / 2 ^ 8
    ∷ h.dst_port % 2 ^ 8
    ∷ h.total_len / 2 ^ 8
    ∷ h.total_len % 2 ^ 8
    ∷ h.checksum / 2 ^ 8
    ∷ h.checksum % 2 ^ 8
    ∷ []

unfoldable pub marshal : UdpHeader → PseudoHeader → Bytes
unfolding with_checksum encode
marshal h psh = encode (with_checksum h psh)

-- `binary.Read` reads the eight bytes at once; what is behind them is left alone.
unfoldable pub parse_udp_header : Bytes → Result UdpHeader
parse_udp_header [] = err eof
parse_udp_header (a ∷ b ∷ c ∷ d ∷ e ∷ f ∷ g ∷ h ∷ rest) = ok (record {
  src_port = a * 2 ^ 8 + b;
  dst_port = c * 2 ^ 8 + d;
  total_len = e * 2 ^ 8 + f;
  checksum = g * 2 ^ 8 + h;
})
parse_udp_header _ = err unexpected_eof
