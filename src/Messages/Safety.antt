-- ===== src/Messages/Safety.antt =====
-- internal/privsep/messages/messages.go: `ReadMessage` on any stream.
use vasily.Base.{
  ℕ, ◌≡◌, inl, inr, List, [], ◌∷◌, length, get_elem?, arith, panic, ◌≢◌, ◌<◌, Option-cases, none,
  suc, zero,
}
use vasily.Backend.{Bytes}
use vasily.Messages.Raw.{RawMessage}
use vasily.Messages.Args.{
  index, arg_int, arg_byte, arg_bytes, arg_ip, decode_packet, decode_packet_bytes, read_payload,
}
use vasily.Messages.Streams.{read_raw_message_cases}
use vasily.Messages.Kinds.{
  decode_raw, read_message, as_open_connection, as_send_ping, as_ping_reply,
}

-- An index that a check has found in range.
index-ne-panic {ℓ} : {A : Type ℓ} (xs : List A) (i : ℕ) → i < length xs → index xs i ≢ panic
index-ne-panic [] i h e = absurd (omega arith)
index-ne-panic (x ∷ xs) zero h e = cc
index-ne-panic (x ∷ xs) (suc i) h e = index-ne-panic xs i (omega arith) e

-- Over a list of a known length every index computes.
read_payload-ne-panic : (tp seq plen : ℕ) (buf : Bytes) → read_payload tp seq plen buf ≢ panic
unfolding read_payload
read_payload-ne-panic tp seq plen buf = ground arith

decode_packet_bytes-ne-panic : (arg : Bytes) → decode_packet_bytes arg ≢ panic
unfolding decode_packet_bytes
decode_packet_bytes-ne-panic [] e = cc
decode_packet_bytes-ne-panic (tp ∷ []) e = cc
decode_packet_bytes-ne-panic (tp ∷ s1 ∷ []) e = cc
decode_packet_bytes-ne-panic (tp ∷ s1 ∷ s0 ∷ []) e = cc
decode_packet_bytes-ne-panic (tp ∷ s1 ∷ s0 ∷ plen ∷ buf) e = read_payload-ne-panic _ _ plen buf e

arg_bytes-ne-panic : (m : RawMessage) (i : ℕ) → arg_bytes m i ≢ panic
unfolding arg_bytes
arg_bytes-ne-panic m i = ground (arith, index-ne-panic m.args i)

decode_packet-ne-panic : (m : RawMessage) (i : ℕ) → decode_packet m i ≢ panic
unfolding decode_packet
decode_packet-ne-panic m i = grind (arith, index-ne-panic m.args i, decode_packet_bytes-ne-panic)

arg_ip-ne-panic : (m : RawMessage) (i : ℕ) → arg_ip m i ≢ panic
unfolding arg_ip
arg_ip-ne-panic m i = ground (arith, arg_bytes-ne-panic m i)

get_elem?-ne-none {ℓ} : {A : Type ℓ} (xs : List A) (i : ℕ) → i < length xs → get_elem? xs i ≢ none
get_elem?-ne-none [] i h e = absurd (omega arith)
get_elem?-ne-none (x ∷ xs) zero h e = cc
get_elem?-ne-none (x ∷ xs) (suc i) h e = get_elem?-ne-none xs i (omega arith) e

arg_byte-ne-panic : (m : RawMessage) (i : ℕ) → arg_byte m i ≢ panic
unfolding arg_byte
arg_byte-ne-panic m i h = elim (Option-cases (get_elem? m.args i)) [
  | inl e ↦ ground (arith, index-ne-panic m.args i)
  | inr (arg, e) ↦ ground (arith, get_elem?-ne-none arg 0)
]

arg_int-ne-panic : (m : RawMessage) (i : ℕ) → arg_int m i ≢ panic
unfolding arg_int
arg_int-ne-panic m i h = elim (Option-cases (get_elem? m.args i)) [
  | inl e ↦ ground (arith, index-ne-panic m.args i)
  | inr (arg, e) ↦ ground (
    arith,
    get_elem?-ne-none arg 0,
    get_elem?-ne-none arg 1,
    get_elem?-ne-none arg 2,
    get_elem?-ne-none arg 3,
  )
]

as_send_ping-ne-panic : (m : RawMessage) → m.type_code ≡ 6 → as_send_ping m ≢ panic
unfolding as_send_ping
as_send_ping-ne-panic m t = ground (
  arith,
  arg_int-ne-panic m 0,
  decode_packet-ne-panic m 1,
  arg_ip-ne-panic m 2,
  arg_int-ne-panic m 3,
)

as_ping_reply-ne-panic : (m : RawMessage) → m.type_code ≡ 7 → as_ping_reply m ≢ panic
unfolding as_ping_reply
as_ping_reply-ne-panic m t =
    ground (arith, arg_int-ne-panic m 0, decode_packet-ne-panic m 1, arg_ip-ne-panic m 2)

as_open_connection-ne-panic : (m : RawMessage) → m.type_code ≡ 2 → as_open_connection m ≢ panic
unfolding as_open_connection
as_open_connection-ne-panic m t = ground (arith, arg_bytes-ne-panic m 0, arg_byte-ne-panic m 1)

decode_raw-ne-panic : (m : RawMessage) → decode_raw m ≢ panic
unfolding decode_raw
decode_raw-ne-panic m = ground (
  arith,
  arg_int-ne-panic m 0,
  as_open_connection-ne-panic m,
  as_send_ping-ne-panic m,
  as_ping_reply-ne-panic m,
)

-- On every stream `ReadMessage` returns: a message, or an error. No index in a decoder is out of
-- range, and the check for a wrong type, which would not be recovered, never fails.
pub read_message-ne-panic : (r : Bytes) → read_message r ≢ panic
unfolding read_message
read_message-ne-panic r = elim (read_raw_message_cases r) [
  | inl (m, rest, e, s) ↦ ground (arith, decode_raw-ne-panic m)
  | inr e ↦ ground arith
]
