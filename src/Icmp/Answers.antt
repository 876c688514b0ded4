-- ===== src/Icmp/Answers.antt =====
-- internal/backend/icmp and icmpbase: a ping that was written, and the reply of its host.
use vasily.Base.{
  ℕ, suc, ◌%◌, ◌^◌, ◌<◌, ◌==◌, ==_iff, ltb, Bool, some, List, if-eq, Result, ok, err, panic,
  wrong_type, >>=-eq-ok, ok-injective, ◌≡◌, inl, inr, refl, sym, ap, ◌∙◌, arith,
}
use mathlib.Core.Path.{subst}
use vasily.Base.Int.{pos}
use vasily.Backend.{Addr, Bytes, Packet, packet_reply, WriteOption}
use vasily.Sockets.{Socket, Sent}
use vasily.Util.{icmp_proto_num}
use vasily.Icmppkt.{
  IcmpType, ipv4_echo, ipv4_echo_reply, ipv6_echo_request, ipv6_echo_reply, protocol, echo_type,
  echo, echo_to_packet, echoes, handling, handle_type, Parsers, parse,
}
use vasily.Icmppkt.Reporting.{lift-eq_ok}
use vasily.Icmpbase.{same_key}
use vasily.Icmpbase.Reading.{received, message_of, and_then, read_normal}
use vasily.Icmp.{PingConn, request_type, base_new, EchoRequest, request_of, send_message, write_to}

-- The type of a reply to a request.
abbrev pub reply_of : IcmpType → IcmpType
reply_of ipv4_echo = ipv4_echo_reply
reply_of ipv6_echo_request = ipv6_echo_reply
reply_of t = t

-- What a host sends back for a request, as x/net reads it: id and sequence number have 16 bits, and
-- the data are the request's.
abbrev pub IsEcho : Parsers → ℕ → IcmpType → (EchoRequest → Result Bytes) → (Bytes → Bytes) → Type 0
IsEcho ps own t marshal answer =
    (r : EchoRequest) (buf : Bytes) (s : ℕ)
    → r.icmp_type ≡ t
    → marshal r ≡ ok buf
    → r.seq ≡ pos s
    → ps.parse_message own (answer buf)
      ≡ ok (record {
        icmp_type = reply_of t;
        code = 0;
        body = echo (r.id % 2 ^ 16) (s % 2 ^ 16) r.contents;
      })

-- The reply's type for each version.
record IsReplyType (own : ℕ) (t : IcmpType) : Type 0 where
  echoed : handling t ≡ echoes
  replies : echo_type t ≡ ok packet_reply
  of_version : protocol t ≡ own

request_type-IsReplyType :
    (ip_ver own : ℕ)
    → icmp_proto_num ip_ver ≡ ok own
    → IsReplyType own (reply_of (request_type ip_ver))
request_type-IsReplyType ip_ver own h = elim (if-eq (ip_ver == 4) _ _ h) [
  | inl (q, e) ↦
      subst (λ v. IsReplyType own (reply_of (request_type v))) (sym ((==_iff ip_ver 4).0 q))
        (record { echoed = refl; replies = refl; of_version = ok-injective e })
  | inr (q, e) ↦ elim (if-eq (ip_ver == 6) _ _ e) [
    | inl (q, e) ↦
        subst (λ v. IsReplyType own (reply_of (request_type v))) (sym ((==_iff ip_ver 6).0 q))
          (record { echoed = refl; replies = refl; of_version = ok-injective e })
    | inr (q, e) ↦ cc
  ]
]

listens :
    (id own : ℕ)
    → same_key (record { id = id % 2 ^ 16; proto = own }) (record { id = id; proto = own })
      ≡ ltb id (2 ^ 16)
unfolding same_key
listens id own = ground arith

-- A parsed echo reply.
reply_parsed :
    (ps : Parsers) (ip_ver own n id s : ℕ) (t : IcmpType) (buf contents : Bytes)
    → icmp_proto_num ip_ver ≡ ok own
    → IsReplyType own t
    → ps.parse_message own buf ≡ ok (record { icmp_type = t; code = 0; body = echo id s contents })
    → parse ps (suc n) ip_ver buf
      ≡ some (
          ok (record {
            packet = record { packet_type = packet_reply; seq = pos s; payload = contents };
            id = id;
            proto = own;
          }))
unfolding parse handle_type echo_to_packet
reply_parsed ps ip_ver own n id s t buf contents o r h =
    lift-eq_ok (icmp_proto_num ip_ver) own _ o
    ∙ lift-eq_ok (ps.parse_message own buf) _ _ h
    ∙ simp (r.echoed, r.replies, r.of_version) refl

base_new-fields :
    (mk_conn : ℕ → ℕ → ℕ → Result ℕ) (ip_ver : ℕ) (p : PingConn)
    → base_new mk_conn ip_ver ≡ ok p
    → p.icmp_type ≡ request_type ip_ver
unfolding base_new
base_new-fields mk_conn ip_ver p h =
    let (own, o, k) = >>=-eq-ok (icmp_proto_num ip_ver) _ h in
    let (id, i, k) = >>=-eq-ok (mk_conn ip_ver 0 own) _ k in
    ap (λ (z : PingConn). z.icmp_type) (sym (ok-injective k))

module _ {W : Type 0} (sock : Socket W) (allow : W → Bool × W)
    (marshal : EchoRequest → Result Bytes) where
  sent_marshalled :
      (p : PingConn) (pkt : Packet) (dest : Addr) (opts : List WriteOption) (w w' : W)
      → write_to sock allow marshal p pkt dest opts w ≡ (ok tt, w')
      → (buf : Bytes) × (marshal (request_of p pkt) ≡ ok buf)
  unfolding write_to
  sent_marshalled p pkt dest opts w w' h = elim (if-eq (pkt.packet_type == 0) _ _ h) [
    | inl (q, k) ↦ by_result (marshal (request_of p pkt)) refl k
    | inr (q, k) ↦ let x : err wrong_type ≡ ok tt = ap (λ (z : Sent W). z.0) k in cc
  ]
    where
      by_result :
          (r : Result Bytes)
          → marshal (request_of p pkt) ≡ r
          → send_message sock allow marshal r dest opts w ≡ (ok tt, w')
          → (buf : Bytes) × (marshal (request_of p pkt) ≡ ok buf)
      by_result (ok buf) e k = (buf, e)
      by_result (err x) e k = let c : err x ≡ ok tt = ap (λ (z : Sent W). z.0) k in cc
      by_result panic e k = let c : panic ≡ ok tt = ap (λ (z : Sent W). z.0) k in cc

-- A ping that was sent without an error, and its host's reply: what is read from the socket is a
-- reply with the ping's sequence number, if that has 16 bits, and its payload. It is for the
-- listener with the last 16 bits of the connection's id, which is the connection itself exactly
-- when the id has no more.
pub write_to-read_normal :
    {W : Type 0} (sock : Socket W) (allow : W → Bool × W) (marshal : EchoRequest → Result Bytes)
    (answer : Bytes → Bytes) (mk_conn : ℕ → ℕ → ℕ → Result ℕ) (ps : Parsers) (ip_ver own n s : ℕ)
    (p : PingConn) (pkt : Packet) (dest peer : Addr) (opts : List WriteOption) (w w' : W)
    → icmp_proto_num ip_ver ≡ ok own
    → base_new mk_conn ip_ver ≡ ok p
    → IsEcho ps own (request_type ip_ver) marshal answer
    → pkt.seq ≡ pos s
    → s < 2 ^ 16
    → write_to sock allow marshal p pkt dest opts w ≡ (ok tt, w')
    → (buf : Bytes) × (marshal (request_of p pkt) ≡ ok buf)
      × (read_normal ps (suc n) ip_ver (received (answer buf) peer)
          ≡ some (
              ok (record {
                packet = record {
                  packet_type = packet_reply;
                  seq = pkt.seq;
                  payload = pkt.payload;
                };
                peer = peer;
                key = record { id = p.echo_id % 2 ^ 16; proto = own };
              })))
      × (same_key
            (record { id = p.echo_id % 2 ^ 16; proto = own })
            (record { id = p.echo_id; proto = own })
          ≡ ltb p.echo_id (2 ^ 16))
unfolding read_normal
write_to-read_normal sock allow marshal answer mk_conn ps ip_ver own n s p pkt dest peer opts w w' o
      b e q l h =
    let (buf, m) = sent_marshalled sock allow marshal p pkt dest opts w w' h in
    let t = base_new-fields mk_conn ip_ver p b in
    let small : s % 2 ^ 16 ≡ s = omega arith in
    (
      buf,
      m,
      ap (λ z. and_then z (λ p. some (ok (message_of peer p))))
            (reply_parsed ps ip_ver own n (p.echo_id % 2 ^ 16) (s % 2 ^ 16)
              (reply_of (request_type ip_ver)) (answer buf) pkt.payload o
              (request_type-IsReplyType ip_ver own o) (e (request_of p pkt) buf s t m q))
          ∙ ap
              (λ z. some (
                ok (record {
                  packet = record { packet_type = packet_reply; seq = z; payload = pkt.payload };
                  peer = peer;
                  key = record { id = p.echo_id % 2 ^ 16; proto = own };
                })))
              (ap pos small ∙ sym q),
      listens p.echo_id own,
    )
