-- ===== src/Privsep/Client/Streams.antt =====
-- What the client reads from a server that only replies.
use vasily.Base.{
  ℕ, [], ◌++◌, append_assoc, append-nil, ◌≡◌, ◌⊎◌, inl, inr, refl, sym, ap, ◌∙◌, ok, err, eof,
  >>=-eq-ok, ok-injective,
}
use mathlib.Core.Path.{subst}
use vasily.Base.Int.{pos}
use vasily.Backend.{Bytes}
use vasily.Messages.Raw.{RawMessage, read_raw_message}
use vasily.Messages.Framing.{frame, marshal_raw-len, read_raw_message-frame}
use vasily.Messages.Args.{check_type, check_n_args, arg_connection_id, decode_packet, arg_ip}
use vasily.Messages.Kinds.{
  Message, shutdown, privilege_drop, open_connection, open_connection_reply, close_connection,
  close_connection_reply, send_ping, ping_reply, raw, to_raw, marshal, as_open_connection_reply,
  as_ping_reply, decode_raw, read_message,
}
use vasily.Privsep.Server.Output.{Replies, silent, opened, answered}

abbrev pub IsReply : RawMessage → Type 0
IsReply m = (m.type_code ≡ 3) ⊎ (m.type_code ≡ 7)

-- A stream of whole frames of replies to OpenConnection and of ping replies.
pub data OnlyReplies : Bytes → Type 0 where
  ends : {b : Bytes} → b ≡ [] → OnlyReplies b
  goes_on :
      {b : Bytes} (m : RawMessage) (rest : Bytes)
      → IsReply m
      → b ≡ frame m ++ rest
      → OnlyReplies rest
      → OnlyReplies b

abbrev pub IsNotClose : Message → Type 0
IsNotClose (close_connection_reply id) = ⊥
IsNotClose shutdown = Unit {0}
IsNotClose privilege_drop = Unit {0}
IsNotClose (open_connection backend ip_ver) = Unit {0}
IsNotClose (open_connection_reply id) = Unit {0}
IsNotClose (close_connection id) = Unit {0}
IsNotClose (send_ping id packet addr ttl) = Unit {0}
IsNotClose (ping_reply id packet peer) = Unit {0}
IsNotClose (raw m) = Unit {0}

OnlyReplies-append : (a b : Bytes) → OnlyReplies a → OnlyReplies b → OnlyReplies (a ++ b)
OnlyReplies-append a b (ends e) k = subst (λ x. OnlyReplies (x ++ b)) (sym e) k
OnlyReplies-append a b (goes_on m rest t e h) k =
    goes_on m (rest ++ b) t (ap (λ x. x ++ b) e ∙ append_assoc (frame m) rest b)
      (OnlyReplies-append rest b h k)

one_reply :
    (msg : Message) (buf : Bytes) → marshal msg ≡ ok buf → IsReply (to_raw msg) → OnlyReplies buf
unfolding marshal
one_reply msg buf h t =
    let (fits, e, len) = marshal_raw-len (to_raw msg) buf h in
    goes_on (to_raw msg) [] t (e ∙ sym (append-nil (frame (to_raw msg)))) (ends refl)

-- What the server writes is such a stream.
pub Replies-OnlyReplies : {n : ℕ} {out : Bytes} → Replies n out → OnlyReplies out
Replies-OnlyReplies silent = ends refl
Replies-OnlyReplies (opened {n} {out} buf h m) =
    OnlyReplies-append out buf (Replies-OnlyReplies h)
      (one_reply (open_connection_reply (pos n)) buf m (unfold to_raw in inl refl))
Replies-OnlyReplies (answered {n} {out} id p peer buf h m) =
    OnlyReplies-append out buf (Replies-OnlyReplies h)
      (one_reply (ping_reply id p peer) buf m (unfold to_raw in inr refl))

open_reply-IsNotClose :
    (m : RawMessage) (msg : Message) → as_open_connection_reply m ≡ ok msg → IsNotClose msg
unfolding as_open_connection_reply
open_reply-IsNotClose m msg h =
    let (u, c, r) = >>=-eq-ok (check_type m 3) _ h in
    let (u, c, r) = >>=-eq-ok (check_n_args m 1) _ r in
    let (id, c, r) = >>=-eq-ok (arg_connection_id m 0) _ r in subst IsNotClose (ok-injective r) tt

ping_reply-IsNotClose : (m : RawMessage) (msg : Message) → as_ping_reply m ≡ ok msg → IsNotClose msg
unfolding as_ping_reply
ping_reply-IsNotClose m msg h =
    let (u, c, r) = >>=-eq-ok (check_type m 7) _ h in
    let (u, c, r) = >>=-eq-ok (check_n_args m 3) _ r in
    let (id, c, r) = >>=-eq-ok (arg_connection_id m 0) _ r in
    let (packet, c, r) = >>=-eq-ok (decode_packet m 1) _ r in
    let (peer, c, r) = >>=-eq-ok (arg_ip m 2) _ r in subst IsNotClose (ok-injective r) tt

decode_raw-IsNotClose :
    (m : RawMessage) (msg : Message) → IsReply m → decode_raw m ≡ ok msg → IsNotClose msg
unfolding decode_raw
decode_raw-IsNotClose m msg (inl t) h =
    open_reply-IsNotClose (record m { type_code = 3 }) msg
      (subst (λ k. decode_raw (record m { type_code = k }) ≡ ok msg) t h)
decode_raw-IsNotClose m msg (inr t) h =
    ping_reply-IsNotClose (record m { type_code = 7 }) msg
      (subst (λ k. decode_raw (record m { type_code = k }) ≡ ok msg) t h)

read_nothing : read_message [] ≡ err eof
unfolding read_message
read_nothing = refl

-- From such a stream the client never reads a reply to CloseConnection.
pub read_message-OnlyReplies :
    (b : Bytes) (msg : Message) (rest : Bytes)
    → OnlyReplies b
    → read_message b ≡ ok (msg, rest)
    → IsNotClose msg × OnlyReplies rest
unfolding read_message
read_message-OnlyReplies b msg rest (ends e) h = cc (read_nothing, ap read_message e)
read_message-OnlyReplies b msg rest (goes_on m tail t e k) h =
    let ((m', r'), f, r) = >>=-eq-ok (read_raw_message b) _ h in
    let (x, d, r) = >>=-eq-ok (decode_raw m') _ r in
    let q : (m', r') ≡ (m, tail) =
      ok-injective (sym f ∙ ap read_raw_message e ∙ read_raw_message-frame m tail) in
    let p : (x, r') ≡ (msg, rest) = ok-injective r in
    (
      decode_raw-IsNotClose m msg t (
          ap decode_raw (sym (ap (λ (z : RawMessage × Bytes). z.0) q))
          ∙ d
          ∙ ap (λ (z : Message × Bytes). ok z.0) p),
      subst OnlyReplies
          (sym (ap (λ (z : RawMessage × Bytes). z.1) q) ∙ ap (λ (z : Message × Bytes). z.1) p) k,
    )
