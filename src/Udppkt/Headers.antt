-- ===== src/Udppkt/Headers.antt =====
-- internal/util/udppkt/udppkt.go: headers and their bytes.
use vasily.Base.{
  ℕ, ◌+◌, ◌*◌, ◌/◌, ◌%◌, ◌^◌, ◌≤◌, ◌<◌, ◌⊎◌, inl, inr, [], ◌∷◌, ◌++◌, length, All, ◌≡◌, refl, ap,
  ◌∙◌, arith, ok, err, eof, unexpected_eof,
}
use vasily.Backend.{Bytes}
use vasily.Udppkt.{
  UdpHeader, PseudoHeader, ipv4, ipv6, other, add_udp_fields, calc_checksum_v4, calc_checksum_v6,
  with_checksum, encode, marshal, parse_udp_header,
}

-- The fields are 16-bit numbers.
pub record IsWords (h : UdpHeader) : Type 0 where
  pub src : h.src_port < 2 ^ 16
  pub dst : h.dst_port < 2 ^ 16
  pub len : h.total_len < 2 ^ 16
  pub check : h.checksum < 2 ^ 16

abbrev pub IsByte : ℕ → Type 0
IsByte b = b < 256

split : (n : ℕ) → n / 2 ^ 8 * 2 ^ 8 + n % 2 ^ 8 ≡ n
split n = omega arith

parse_udp_header-encode :
    (h : UdpHeader) (rest : Bytes) → parse_udp_header (encode h ++ rest) ≡ ok h
unfolding parse_udp_header encode
parse_udp_header-encode h rest =
    rw (split h.src_port, split h.dst_port, split h.total_len, split h.checksum)

encode-IsByte : (h : UdpHeader) → IsWords h → All IsByte (encode h)
unfolding encode
encode-IsByte h w = omega (arith, w.src, w.dst, w.len, w.check)

add_udp_fields-IsWords : (h : UdpHeader) (c : ℕ) → IsWords h → IsWords (add_udp_fields h c)
unfolding add_udp_fields
add_udp_fields-IsWords h c w = record { src = w.src; dst = w.dst; len = w.len; check = omega arith }

with_checksum-IsWords :
    (h : UdpHeader) (psh : PseudoHeader) → IsWords h → IsWords (with_checksum h psh)
unfolding with_checksum calc_checksum_v4 calc_checksum_v6
with_checksum-IsWords h (ipv4 src dst protocol len) w = add_udp_fields-IsWords h _ w
with_checksum-IsWords h (ipv6 src dst payload_len) w = add_udp_fields-IsWords h _ w
with_checksum-IsWords h other w = w

only_checksum :
    (h : UdpHeader) (psh : PseudoHeader)
    → with_checksum h psh ≡ record h { checksum = (with_checksum h psh).checksum }
unfolding with_checksum calc_checksum_v4 calc_checksum_v6 add_udp_fields
only_checksum h (ipv4 src dst protocol len) = refl
only_checksum h (ipv6 src dst payload_len) = refl
only_checksum h other = refl

-- For a header whose fields are 16-bit numbers, `Marshal` makes eight bytes, from which
-- `ParseUDPHeader` reads, whatever stands behind them, the same ports and length and the checksum
-- that was computed.
pub marshal-parse_udp_header :
    (h : UdpHeader) (psh : PseudoHeader) (rest : Bytes)
    → IsWords h
    → (length (marshal h psh) ≡ 8)
      × All IsByte (marshal h psh)
      × (parse_udp_header (marshal h psh ++ rest)
          ≡ ok (record h { checksum = (with_checksum h psh).checksum }))
unfolding marshal
marshal-parse_udp_header h psh rest w = (
  unfold encode in refl,
  encode-IsByte (with_checksum h psh) (with_checksum-IsWords h psh w),
  parse_udp_header-encode (with_checksum h psh) rest ∙ ap ok (only_checksum h psh),
)

-- On any bytes `ParseUDPHeader` returns a header, if they are at least 8, and otherwise an error.
pub parse_udp_header-length :
    (b : Bytes)
    → ((8 ≤ length b) × ((h : UdpHeader) × (parse_udp_header b ≡ ok h)))
      ⊎ ((length b < 8)
          × ((parse_udp_header b ≡ err eof) ⊎ (parse_udp_header b ≡ err unexpected_eof)))
unfolding parse_udp_header
parse_udp_header-length [] = inr (omega arith, inl refl)
parse_udp_header-length (a ∷ []) = inr (omega arith, inr refl)
parse_udp_header-length (a ∷ b ∷ []) = inr (omega arith, inr refl)
parse_udp_header-length (a ∷ b ∷ c ∷ []) = inr (omega arith, inr refl)
parse_udp_header-length (a ∷ b ∷ c ∷ d ∷ []) = inr (omega arith, inr refl)
parse_udp_header-length (a ∷ b ∷ c ∷ d ∷ e ∷ []) = inr (omega arith, inr refl)
parse_udp_header-length (a ∷ b ∷ c ∷ d ∷ e ∷ f ∷ []) = inr (omega arith, inr refl)
parse_udp_header-length (a ∷ b ∷ c ∷ d ∷ e ∷ f ∷ g ∷ []) = inr (omega arith, inr refl)
parse_udp_header-length (a ∷ b ∷ c ∷ d ∷ e ∷ f ∷ g ∷ h ∷ rest) = inl (
  omega arith,
  (
    record {
      src_port = a * 2 ^ 8 + b;
      dst_port = c * 2 ^ 8 + d;
      total_len = e * 2 ^ 8 + f;
      checksum = g * 2 ^ 8 + h;
    },
    refl,
  ),
)
