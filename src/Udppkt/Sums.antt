-- ===== src/Udppkt/Sums.antt =====
-- internal/util/udppkt/udppkt.go: the checksum and its receiver.
use vasily.Base.{ℕ, ◌+◌, ◌-◌, ◌*◌, ◌/◌, ◌%◌, ◌^◌, ◌<◌, ◌≢◌, [], ◌∷◌, ◌≡◌, ap, ◌∙◌, arith}
use vasily.Backend.{Bytes}
use vasily.Udppkt.{UdpHeader, add_bytes, add_uint16, add_udp_fields, calc_checksum_v4, sum}

-- The sum of the big-endian 16-bit words of some bytes, an odd one at the end padded with zero.
abbrev pub words : Bytes → ℕ
words [] = 0
words (x ∷ []) = x * 256
words (x ∷ y ∷ b) = x * 256 + y + words b

pub add_bytes-words : (c : ℕ) (b : Bytes) → c + words b < 2 ^ 64 → add_bytes c b ≡ c + words b
unfolding add_bytes
add_bytes-words c [] h = omega arith
add_bytes-words c (x ∷ []) h = omega arith
add_bytes-words c (x ∷ y ∷ b) h =
    add_bytes-words ((c + (x * 2 ^ 8 + y)) % 2 ^ 64) b (omega arith) ∙ (omega arith)

add_uint16_lem : (c i : ℕ) → c + i < 2 ^ 64 → add_uint16 c i ≡ c + i
unfolding add_uint16
add_uint16_lem c i h = omega arith

then_uint16 : {c d : ℕ} (i : ℕ) → c ≡ d → d + i < 2 ^ 64 → add_uint16 c i ≡ d + i
then_uint16 {d = d} i e h = ap (λ x. add_uint16 x i) e ∙ add_uint16_lem d i h

-- A sum whose one carry leaves no other is taken by a receiver, who adds the checksum and wants 0
-- modulo 2^16 - 1, only if it was 0 itself.
sum-rejected :
    (c : ℕ)
    → c % 2 ^ 16 + c / 2 ^ 16 < 2 ^ 16
    → c % (2 ^ 16 - 1) ≢ 0
    → (c + sum c) % (2 ^ 16 - 1) ≢ 0
unfolding sum
sum-rejected c h n = ground arith

-- What is summed for IPv4.
abbrev pub total_v4 : UdpHeader → Bytes → Bytes → ℕ → ℕ → ℕ
total_v4 h src dst protocol len =
    words src + words dst + protocol % 2 ^ 16 + len % 2 ^ 16 + h.src_port + h.dst_port + h.total_len

checksum_v4 :
    (h : UdpHeader) (src dst : Bytes) (protocol len : ℕ)
    → total_v4 h src dst protocol len < 2 ^ 64
    → (calc_checksum_v4 h src dst protocol len).checksum ≡ sum (total_v4 h src dst protocol len)
unfolding calc_checksum_v4 add_udp_fields
checksum_v4 h src dst protocol len b =
    let s1 : add_bytes 0 src ≡ words src = add_bytes-words 0 src (omega arith) ∙ (omega arith) in
    let s2 = ap (λ x. add_bytes x dst) s1 ∙ add_bytes-words (words src) dst (omega arith) in
    let s3 = then_uint16 (protocol % 2 ^ 16) s2 (omega arith) in
    let s4 = then_uint16 (len % 2 ^ 16) s3 (omega arith) in
    let s5 = then_uint16 h.src_port s4 (omega arith) in
    let s6 = then_uint16 h.dst_port s5 (omega arith) in
    ap sum (then_uint16 h.total_len s6 (omega arith))

-- The checksum of an IPv4 packet is not the complement of the sum, as RFC 768 wants it: with the
-- summed fields below 2^64 and one carry to fold, a receiver that adds the checksum to the sum of
-- the same fields gets 0 modulo 2^16 - 1, and takes the packet, only if that sum was 0 already.
pub calc_checksum_v4_rejected :
    (h : UdpHeader) (src dst : Bytes) (protocol len : ℕ)
    → let c = total_v4 h src dst protocol len in
      c < 2 ^ 64
      → c % 2 ^ 16 + c / 2 ^ 16 < 2 ^ 16
      → c % (2 ^ 16 - 1) ≢ 0
      → (c + (calc_checksum_v4 h src dst protocol len).checksum) % (2 ^ 16 - 1) ≢ 0
calc_checksum_v4_rejected h src dst protocol len b f n =
    rw (checksum_v4 h src dst protocol len b) (sum-rejected (total_v4 h src dst protocol len) f n)
