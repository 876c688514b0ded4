-- ===== src/Messages/Tests.antt =====
-- Concrete messages, and the theorems at concrete inputs.
use vasily.Base.{
  ◌≡◌, ◌≢◌, refl, inl, [], ◌∷◌, ◌++◌, replicate, arith, ok, err, panic, eof, bad_arg_count,
}
use vasily.Base.Int.{pos}
use vasily.Backend.{Bytes, Packet}
use vasily.Messages.Raw.{RawMessage, read_raw_message, marshal_raw}
use vasily.Messages.Kinds.{Message, send_ping, marshal, read_message}
use vasily.Messages.Framing.{frame}
use vasily.Messages.RoundTrip.{received, read_message-marshal}
use vasily.Messages.Safety.{read_message-ne-panic}

abbrev small_packet : Packet
small_packet = record { packet_type = 0; seq = pos 258; payload = 7 ∷ 8 ∷ [] }

abbrev ping_message : Message
ping_message = send_ping (pos 1) small_packet (127 ∷ 0 ∷ 0 ∷ 1 ∷ []) (pos 64)

abbrev ping_bytes : Bytes
ping_bytes =
    6 ∷ 4 ∷ 4 ∷ 0 ∷ 0 ∷ 0 ∷ 1 ∷ 6 ∷ 0 ∷ 1 ∷ 2 ∷ 2 ∷ 7 ∷ 8 ∷ 4 ∷ 127 ∷ 0 ∷ 0 ∷ 1 ∷ 4 ∷ 0 ∷ 0 ∷ 0 ∷ 64
    ∷ []

marshal-ping : marshal ping_message ≡ ok ping_bytes
unfolding marshal
marshal-ping = refl

read-ping : read_message ping_bytes ≡ ok (ping_message, [])
unfolding read_message
read-ping = refl

read-shutdown_args : read_message (0 ∷ 1 ∷ 0 ∷ []) ≡ err bad_arg_count
unfolding read_message
read-shutdown_args = refl

read_cut : read_message (0 ∷ []) ≡ err eof
unfolding read_message
read_cut = refl

abbrev cut_raw : RawMessage
cut_raw = record { type_code = 4; args = (0 ∷ 0 ∷ 0 ∷ 7 ∷ []) ∷ [] }

-- A payload of 252 bytes, one too many for an argument.
abbrev long_packet : Packet
long_packet = record { packet_type = 1; seq = pos 3; payload = replicate 252 65 }

open_bytes-read :
    read_raw_message (2 ∷ 2 ∷ 1 ∷ 97 ∷ 1 ∷ 4 ∷ 9 ∷ [])
    ≡ ok (record { type_code = 2; args = (97 ∷ []) ∷ (4 ∷ []) ∷ [] }, 9 ∷ [])
unfolding read_raw_message
open_bytes-read = refl

cut_raw-marshal : marshal_raw cut_raw ≡ ok (frame cut_raw)
unfolding marshal_raw
cut_raw-marshal = refl

read_message-marshal_example :
    (b : Bytes) × (marshal ping_message ≡ ok b)
    × (read_message (b ++ (1 ∷ [])) ≡ ok (received ping_message, 1 ∷ []))
read_message-marshal_example = read_message-marshal ping_message (1 ∷ []) (omega arith, inl refl)

read_message-ne-panic_example : read_message (6 ∷ 4 ∷ 1 ∷ 0 ∷ []) ≢ panic
read_message-ne-panic_example = read_message-ne-panic (6 ∷ 4 ∷ 1 ∷ 0 ∷ [])
