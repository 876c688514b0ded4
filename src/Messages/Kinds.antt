-- ===== src/Messages/Kinds.antt =====
-- The messages, their encodings, and the decoder of a stream.
use vasily.Base.{ℕ, [], ◌∷◌, ◌==◌, if◌then◌else◌, Result, ok, ◌>>=◌, ◌>>◌}
use vasily.Base.Int.{ℤ}
use vasily.Backend.{Bytes, Packet}
use vasily.Messages.Raw.{RawMessage, read_raw_message, marshal_raw}
use vasily.Messages.Args.{
  encode_int, encode_packet, check_n_args, check_type, arg_string, arg_ip_version,
  arg_connection_id, arg_int, arg_ip, decode_packet,
}

abbrev pub msg_shutdown : ℕ
msg_shutdown = 0

abbrev pub msg_privilege_drop : ℕ
msg_privilege_drop = 1

abbrev pub msg_open_connection : ℕ
msg_open_connection = 2

abbrev pub msg_open_connection_reply : ℕ
msg_open_connection_reply = 3

abbrev pub msg_close_connection : ℕ
msg_close_connection = 4

abbrev pub msg_close_connection_reply : ℕ
msg_close_connection_reply = 5

abbrev pub msg_send_ping : ℕ
msg_send_ping = 6

abbrev pub msg_ping_reply : ℕ
msg_ping_reply = 7

-- The types that implement the interface `Message`.
pub data Message : Type 0 where
  shutdown : Message
  privilege_drop : Message
  open_connection : Bytes → ℕ → Message
  open_connection_reply : ℤ → Message
  close_connection : ℤ → Message
  close_connection_reply : ℤ → Message
  send_ping : ℤ → Packet → Bytes → ℤ → Message
  ping_reply : ℤ → Packet → Bytes → Message
  raw : RawMessage → Message

-- The raw message that each `WriteTo` builds.
unfoldable pub to_raw : Message → RawMessage
to_raw shutdown = record { type_code = msg_shutdown; args = [] }
to_raw privilege_drop = record { type_code = msg_privilege_drop; args = [] }
to_raw (open_connection backend ip_ver) = record {
  type_code = msg_open_connection;
  args = backend ∷ (ip_ver ∷ []) ∷ [];
}
to_raw (open_connection_reply id) = record {
  type_code = msg_open_connection_reply;
  args = encode_int id ∷ [];
}
to_raw (close_connection id) = record {
  type_code = msg_close_connection;
  args = encode_int id ∷ [];
}
to_raw (close_connection_reply id) = record {
  type_code = msg_close_connection_reply;
  args = encode_int id ∷ [];
}
to_raw (send_ping id packet addr ttl) = record {
  type_code = msg_send_ping;
  args = encode_int id ∷ encode_packet packet ∷ addr ∷ encode_int ttl ∷ [];
}
to_raw (ping_reply id packet peer) = record {
  type_code = msg_ping_reply;
  args = encode_int id ∷ encode_packet packet ∷ peer ∷ [];
}
to_raw (raw m) = m

-- What `WriteTo` of a message hands to the writer.
unfoldable pub marshal : Message → Result Bytes
unfolding marshal_raw to_raw encode_int encode_packet
marshal msg = marshal_raw (to_raw msg)

unfoldable pub as_shutdown : RawMessage → Result Message
unfolding check_type check_n_args
as_shutdown m = do check_type m msg_shutdown; check_n_args m 0; ok shutdown

unfoldable pub as_privilege_drop : RawMessage → Result Message
unfolding check_type check_n_args
as_privilege_drop m = do check_type m msg_privilege_drop; check_n_args m 0; ok privilege_drop

unfoldable pub as_open_connection : RawMessage → Result Message
unfolding check_type arg_string arg_ip_version
as_open_connection m = do
  check_type m msg_open_connection
  backend ← arg_string m 0
  ip_ver ← arg_ip_version m 1
  ok (open_connection backend ip_ver)

unfoldable pub as_open_connection_reply : RawMessage → Result Message
unfolding check_type check_n_args arg_connection_id
as_open_connection_reply m = do
  check_type m msg_open_connection_reply
  check_n_args m 1
  id ← arg_connection_id m 0
  ok (open_connection_reply id)

unfoldable pub as_close_connection : RawMessage → Result Message
unfolding check_type check_n_args arg_connection_id
as_close_connection m = do
  check_type m msg_close_connection
  check_n_args m 1
  id ← arg_connection_id m 0
  ok (close_connection id)

unfoldable pub as_close_connection_reply : RawMessage → Result Message
unfolding check_type arg_connection_id
as_close_connection_reply m = do
  check_type m msg_close_connection_reply
  id ← arg_connection_id m 0
  ok (close_connection_reply id)

unfoldable pub as_send_ping : RawMessage → Result Message
unfolding check_type check_n_args arg_connection_id decode_packet arg_ip arg_int
as_send_ping m = do
  check_type m msg_send_ping
  check_n_args m 4
  id ← arg_connection_id m 0
  packet ← decode_packet m 1
  addr ← arg_ip m 2
  ttl ← arg_int m 3
  ok (send_ping id packet addr ttl)

unfoldable pub as_ping_reply : RawMessage → Result Message
unfolding check_type check_n_args arg_connection_id decode_packet arg_ip
as_ping_reply m = do
  check_type m msg_ping_reply
  check_n_args m 3
  id ← arg_connection_id m 0
  packet ← decode_packet m 1
  peer ← arg_ip m 2
  ok (ping_reply id packet peer)

-- The switch of `ReadMessage`; an unknown type is passed on raw.
unfoldable pub decode_raw : RawMessage → Result Message
unfolding as_shutdown as_privilege_drop as_open_connection as_open_connection_reply
    as_close_connection as_close_connection_reply as_send_ping as_ping_reply
decode_raw m =
    if m.type_code == msg_shutdown
    then as_shutdown m
    else if m.type_code == msg_privilege_drop
    then as_privilege_drop m
    else if m.type_code == msg_open_connection
    then as_open_connection m
    else if m.type_code == msg_open_connection_reply
    then as_open_connection_reply m
    else if m.type_code == msg_close_connection
    then as_close_connection m
    else if m.type_code == msg_close_connection_reply
    then as_close_connection_reply m
    else if m.type_code == msg_send_ping
    then as_send_ping m
    else if m.type_code == msg_ping_reply
    then as_ping_reply m
    else ok (raw m)

-- `ReadMessage` with `catchError`: a caught panic is an error, `log.Panicf` stays a panic.
unfoldable pub read_message : Bytes → Result (Message × Bytes)
unfolding read_raw_message decode_raw
read_message r = do (m, r) ← read_raw_message r; msg ← decode_raw m; ok (msg, r)
