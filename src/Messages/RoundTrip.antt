-- ===== src/Messages/RoundTrip.antt =====
-- internal/privsep/messages/messages.go: messages that are written and read again.
use vasily.Base.{◌≤◌, ◌<◌, ◌≡◌, refl, ◌⊎◌, ◌++◌, length, arith, arg_too_long, ok, err}
use vasily.Base.Int.{ℤ, pos}
use vasily.Backend.{Bytes, Packet}
use vasily.Messages.Args.{encode_int}
use vasily.Messages.Framing.{
  IsFramed, frame, marshal_raw-frame, marshal_raw_long, read_raw_message-frame,
}
use vasily.Messages.Integers.{
  int_code, sent_packet, arg_int-encode_int, decode_packet-encode_packet, arg_ip_lem,
  length-encode_packet,
}
use vasily.Messages.Kinds.{
  Message, shutdown, privilege_drop, open_connection, open_connection_reply, close_connection,
  close_connection_reply, send_ping, ping_reply, raw, to_raw, marshal, decode_raw, read_message,
}

abbrev IsAddress : Bytes → Type 0
IsAddress ip = (length ip ≡ 4) ⊎ (length ip ≡ 16)

-- What the format can carry: short names and payloads, addresses of IPv4 or IPv6. A raw message
-- keeps its type only if the decoder has no other use for it.
abbrev pub IsSendable : Message → Type 0
IsSendable (open_connection backend ip_ver) = length backend ≤ 255
IsSendable (send_ping id packet addr ttl) = (length packet.payload ≤ 251) × IsAddress addr
IsSendable (ping_reply id packet peer) = (length packet.payload ≤ 251) × IsAddress peer
IsSendable (raw m) = IsFramed m × (8 ≤ m.type_code)
IsSendable _ = Unit {0}

-- The message that the other side gets.
abbrev pub received : Message → Message
received (open_connection_reply id) = open_connection_reply (pos (int_code id))
received (close_connection id) = close_connection (pos (int_code id))
received (close_connection_reply id) = close_connection_reply (pos (int_code id))
received (send_ping id packet addr ttl) =
    send_ping (pos (int_code id)) (sent_packet packet) addr (pos (int_code ttl))
received (ping_reply id packet peer) = ping_reply (pos (int_code id)) (sent_packet packet) peer
received msg = msg

decode_raw-to_raw : (msg : Message) → IsSendable msg → decode_raw (to_raw msg) ≡ ok (received msg)
unfolding decode_raw to_raw
decode_raw-to_raw shutdown h = refl
decode_raw-to_raw privilege_drop h = refl
decode_raw-to_raw (open_connection backend ip_ver) h = refl
decode_raw-to_raw (open_connection_reply id) h =
    rw (arg_int-encode_int (to_raw (open_connection_reply id)) 0 id refl)
decode_raw-to_raw (close_connection id) h =
    rw (arg_int-encode_int (to_raw (close_connection id)) 0 id refl)
decode_raw-to_raw (close_connection_reply id) h =
    rw (arg_int-encode_int (to_raw (close_connection_reply id)) 0 id refl)
decode_raw-to_raw (send_ping id packet addr ttl) h =
    let m = to_raw (send_ping id packet addr ttl) in
    rw (
      arg_int-encode_int m 0 id refl,
      decode_packet-encode_packet m 1 packet refl,
      arg_ip_lem m 2 addr refl h.1,
      arg_int-encode_int m 3 ttl refl,
    )
decode_raw-to_raw (ping_reply id packet peer) h =
    let m = to_raw (ping_reply id packet peer) in
    rw (
      arg_int-encode_int m 0 id refl,
      decode_packet-encode_packet m 1 packet refl,
      arg_ip_lem m 2 peer refl h.1,
    )
decode_raw-to_raw (raw m) h = ground arith

to_raw-IsFramed : (msg : Message) → IsSendable msg → IsFramed (to_raw msg)
unfolding to_raw encode_int
to_raw-IsFramed shutdown h = omega arith
to_raw-IsFramed privilege_drop h = omega arith
to_raw-IsFramed (open_connection backend ip_ver) h = omega arith
to_raw-IsFramed (open_connection_reply id) h = omega arith
to_raw-IsFramed (close_connection id) h = omega arith
to_raw-IsFramed (close_connection_reply id) h = omega arith
to_raw-IsFramed (send_ping id packet addr ttl) h = omega (arith, length-encode_packet packet)
to_raw-IsFramed (ping_reply id packet peer) h = omega (arith, length-encode_packet packet)
to_raw-IsFramed (raw m) h = h.0

-- Every message that the format can carry is written, and `ReadMessage` on the bytes written, with
-- any bytes behind them, returns the message and leaves those bytes. Numbers arrive modulo 2^32,
-- packet types modulo 2^8 and sequence numbers modulo 2^16.
pub read_message-marshal :
    (msg : Message) (rest : Bytes)
    → IsSendable msg
    → (b : Bytes) × (marshal msg ≡ ok b) × (read_message (b ++ rest) ≡ ok (received msg, rest))
unfolding marshal read_message
read_message-marshal msg rest h = (
  frame (to_raw msg),
  marshal_raw-frame (to_raw msg) (to_raw-IsFramed msg h),
  rw (read_raw_message-frame (to_raw msg) rest, decode_raw-to_raw msg h),
)

-- A reply whose payload is longer than 251 bytes is never written, whatever the peer and the
-- connection: the cut of `encodePacket` to 255 bytes leaves an argument that is too long.
pub marshal-ping_reply_long :
    (id : ℤ) (p : Packet) (peer : Bytes)
    → 251 < length p.payload
    → marshal (ping_reply id p peer) ≡ err arg_too_long
unfolding marshal
marshal-ping_reply_long id p peer h =
    marshal_raw_long (to_raw (ping_reply id p peer)) (unfold to_raw in omega arith)
      (unfold to_raw in λ t. absurd (omega (arith, length-encode_packet p, t.1.0)))
