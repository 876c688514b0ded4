-- ===== src/Messages/Integers.antt =====
-- The numbers inside the arguments: what their bytes stand for.
use vasily.Base.{
  ℕ, ◌+◌, ◌-◌, ◌*◌, ◌%◌, ◌^◌, ◌<◌, ◌≡◌, refl, sym, [], ◌∷◌, length, get_elem?, get_elem?-lt, some,
  ◌⊎◌, take, drop, take-eq, length-take, arith, ok, min, ltb, Bool-cases, inl, inr, if◌then◌else◌,
}
use vasily.Base.Int.{ℤ, pos, negsuc}
use vasily.Backend.{Bytes, Packet}
use vasily.Messages.Raw.{RawMessage}
use vasily.Messages.Args.{
  shift_byte, encode_int, arg_int, encode_packet, decode_packet_bytes, decode_packet, read_payload,
  arg_ip,
}

-- The big-endian number that `argInt` makes of four bytes.
abbrev pub be32 : ℕ → ℕ → ℕ → ℕ → ℕ
be32 b0 b1 b2 b3 = b0 * 2 ^ 24 + b1 * 2 ^ 16 + b2 * 2 ^ 8 + b3

abbrev pub int_code : ℤ → ℕ
int_code (pos n) = n % 2 ^ 32
int_code (negsuc k) = 2 ^ 32 - 1 - k % 2 ^ 32

pub be32-encode_int :
    (n : ℤ)
    → be32 (shift_byte n 24) (shift_byte n 16) (shift_byte n 8) (shift_byte n 0) ≡ int_code n
be32-encode_int (pos n) = omega arith
be32-encode_int (negsuc k) = omega arith

-- `argInt` of what `encodeInt` wrote, at any place, is the number modulo 2^32 and never negative.
pub arg_int-encode_int :
    (m : RawMessage) (i : ℕ) (n : ℤ)
    → get_elem? m.args i ≡ some (encode_int n)
    → arg_int m i ≡ ok (pos (int_code n))
unfolding arg_int encode_int
arg_int-encode_int m i n h = ground (arith, be32-encode_int n, get_elem?-lt m.args i h)

-- So a number goes through unchanged exactly if it is from 0 to 2^32 - 1.
pub int_code-id : (n : ℕ) → n < 2 ^ 32 → int_code (pos n) ≡ n
int_code-id n h = omega arith

-- What a packet looks like after it was sent: type and sequence number keep their low 8 and 16
-- bits, and the payload its first 255 bytes.
abbrev pub sent_packet : Packet → Packet
sent_packet p = record {
  packet_type = p.packet_type % 256;
  seq = pos (int_code p.seq % 2 ^ 16);
  payload = take 255 p.payload;
}

seq_bytes : (n : ℤ) → shift_byte n 8 * 2 ^ 8 + shift_byte n 0 ≡ int_code n % 2 ^ 16
seq_bytes (pos n) = omega arith
seq_bytes (negsuc k) = omega arith

sent_payload : (xs : Bytes) → (if ltb 255 (length xs) then take 255 xs else xs) ≡ take 255 xs
sent_payload xs = elim (Bool-cases (ltb 255 (length xs))) [
  | inl e ↦ rw e
  | inr e ↦ rw e (sym (take-eq 255 xs (ground arith)))
]

drop-length : (xs : Bytes) → drop (length xs) xs ≡ []
drop-length [] = refl
drop-length (x ∷ xs) = drop-length xs

read_payload_whole :
    (tp seq : ℕ) (xs : Bytes)
    → read_payload tp seq (length xs) xs
      ≡ ok (record { packet_type = tp; seq = pos seq; payload = xs })
unfolding read_payload
read_payload_whole tp seq xs = ground (arith, take-eq (length xs) xs (omega arith), drop-length xs)

-- `decodePacket` of what `encodePacket` wrote, for every packet.
pub decode_packet_bytes-encode_packet :
    (p : Packet) → decode_packet_bytes (encode_packet p) ≡ ok (sent_packet p)
unfolding decode_packet_bytes encode_packet
decode_packet_bytes-encode_packet p =
    rw (sent_payload p.payload, seq_bytes p.seq)
      (read_payload_whole (p.packet_type % 256) (int_code p.seq % 2 ^ 16) (take 255 p.payload))

pub length-encode_packet : (p : Packet) → length (encode_packet p) ≡ 4 + min 255 (length p.payload)
unfolding encode_packet
length-encode_packet p = rw (sent_payload p.payload) (omega (arith, length-take 255 p.payload))

pub decode_packet-encode_packet :
    (m : RawMessage) (i : ℕ) (p : Packet)
    → get_elem? m.args i ≡ some (encode_packet p)
    → decode_packet m i ≡ ok (sent_packet p)
unfolding decode_packet
decode_packet-encode_packet m i p h =
    ground (arith, decode_packet_bytes-encode_packet p, get_elem?-lt m.args i h)

pub arg_ip_lem :
    (m : RawMessage) (i : ℕ) (ip : Bytes)
    → get_elem? m.args i ≡ some ip
    → (length ip ≡ 4) ⊎ (length ip ≡ 16)
    → arg_ip m i ≡ ok ip
unfolding arg_ip
arg_ip_lem m i ip h l = ground (arith, get_elem?-lt m.args i h)
