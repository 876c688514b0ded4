-- ===== src/Messages/Args.antt =====
-- The arguments of a raw message: numbers, addresses and packets.
use vasily.Base.{
  ℕ, ◌+◌, ◌-◌, ◌*◌, ◌/◌, ◌%◌, ◌^◌, not, ◌||◌, none, some, List, [], ◌∷◌, length, get_elem?, take,
  drop, ◌==◌, ltb, if◌then◌else◌, Result, ok, err, panic, bad_arg_count, arg_not_found,
  bad_arg_length, bad_ip_length, no_packet_type, no_seq, no_payload_length, no_payload,
  short_payload, extra_bytes, guard, ensure, ◌>>=◌, ◌>>◌,
}
use vasily.Base.Int.{ℤ, pos, negsuc}
use vasily.Backend.{Bytes, Packet}
use vasily.Messages.Raw.{RawMessage}

-- `byte(n >> s)` for a signed n: -(k + 1) >> s is -(k / 2^s + 1).
abbrev pub shift_byte : ℤ → ℕ → ℕ
shift_byte (pos n) s = n / 2 ^ s % 256
shift_byte (negsuc k) s = 255 - k / 2 ^ s % 256

unfoldable pub encode_int : ℤ → Bytes
encode_int n = shift_byte n 24 ∷ shift_byte n 16 ∷ shift_byte n 8 ∷ shift_byte n 0 ∷ []

-- An index out of range is a runtime panic.
abbrev pub index {ℓ} : {A : Type ℓ} → List A → ℕ → Result A
index xs i = elim (get_elem? xs i) [ none ↦ panic | some x ↦ ok x ]

unfoldable pub check_n_args : RawMessage → ℕ → Result (Unit {0})
check_n_args m want = guard (length m.args == want) bad_arg_count

unfoldable pub check_arg_exists : RawMessage → ℕ → Result (Unit {0})
check_arg_exists m i = guard (ltb i (length m.args)) arg_not_found

unfoldable pub check_arg_len : RawMessage → ℕ → ℕ → Result (Unit {0})
unfolding check_arg_exists
check_arg_len m i want_len = do
  check_arg_exists m i
  arg ← index m.args i
  guard (length arg == want_len) bad_arg_length

-- `log.Panicf` is not recovered by `catchError`.
unfoldable pub check_type : RawMessage → ℕ → Result (Unit {0})
check_type m want = ensure (m.type_code == want)

unfoldable pub arg_bytes : RawMessage → ℕ → Result Bytes
unfolding check_arg_exists
arg_bytes m i = do check_arg_exists m i; index m.args i

unfoldable pub arg_string : RawMessage → ℕ → Result Bytes
unfolding arg_bytes
arg_string m i = arg_bytes m i

unfoldable pub arg_byte : RawMessage → ℕ → Result ℕ
unfolding check_arg_len
arg_byte m i = do check_arg_len m i 1; arg ← index m.args i; index arg 0

-- The operands of `|` are bytes at different places, so it is a sum.
pub arg_uint16 : RawMessage → ℕ → Result ℕ
unfolding check_arg_len
arg_uint16 m i = do
  check_arg_len m i 2
  arg ← index m.args i
  b0 ← index arg 0
  b1 ← index arg 1
  ok (b0 * 2 ^ 8 + b1)

unfoldable pub arg_int : RawMessage → ℕ → Result ℤ
unfolding check_arg_len
arg_int m i = do
  check_arg_len m i 4
  arg ← index m.args i
  b0 ← index arg 0
  b1 ← index arg 1
  b2 ← index arg 2
  b3 ← index arg 3
  ok (pos (b0 * 2 ^ 24 + b1 * 2 ^ 16 + b2 * 2 ^ 8 + b3))

unfoldable pub arg_connection_id : RawMessage → ℕ → Result ℤ
unfolding arg_int
arg_connection_id m i = arg_int m i

unfoldable pub arg_ip_version : RawMessage → ℕ → Result ℕ
unfolding arg_byte
arg_ip_version m i = arg_byte m i

unfoldable pub arg_ip : RawMessage → ℕ → Result Bytes
unfolding arg_bytes
arg_ip m i = do ip ← arg_bytes m i; guard (length ip == 4 || length ip == 16) bad_ip_length; ok ip

-- `buf.Read(payload)`: an empty buffer gives `io.EOF`, but not to a read of no bytes; then the two
-- checks on what was read and on what is left.
unfoldable pub read_payload : ℕ → ℕ → ℕ → Bytes → Result Packet
read_payload tp seq plen buf = do
  guard (not (length buf == 0) || plen == 0) no_payload
  guard (length (take plen buf) == plen) short_payload
  guard (length (drop plen buf) == 0) extra_bytes
  ok (record { packet_type = tp; seq = pos seq; payload = take plen buf })

-- The reads of `decodePacket` in order, over what is left of the argument.
unfoldable pub decode_packet_bytes : Bytes → Result Packet
unfolding read_payload
decode_packet_bytes [] = err no_packet_type
decode_packet_bytes (tp ∷ []) = err no_seq
decode_packet_bytes (tp ∷ s1 ∷ []) = err no_seq
decode_packet_bytes (tp ∷ s1 ∷ s0 ∷ []) = err no_payload_length
decode_packet_bytes (tp ∷ s1 ∷ s0 ∷ plen ∷ buf) = read_payload tp (s1 * 2 ^ 8 + s0) plen buf

unfoldable pub decode_packet : RawMessage → ℕ → Result Packet
unfolding check_arg_exists decode_packet_bytes
decode_packet m i = do check_arg_exists m i; arg ← index m.args i; decode_packet_bytes arg

-- Cuts a payload that is too long. `byte(pkt.Type)` and `uint16(pkt.Seq)` keep the low bits.
unfoldable pub encode_packet : Packet → Bytes
encode_packet p =
    let payload = if ltb 255 (length p.payload) then take 255 p.payload else p.payload in
    p.packet_type % 256 ∷ shift_byte p.seq 8 ∷ shift_byte p.seq 0 ∷ length payload ∷ payload
