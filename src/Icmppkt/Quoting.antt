-- ===== src/Icmppkt/Quoting.antt =====
-- internal/util/icmppkt: the packet that `Parse` takes out of a message,
-- against a relation between messages and packets.
use vasily.Base.{
  ℕ, zero, suc, ◌==◌, ==_iff, Option, some, some_injective, drop, if-eq, Result, ok, >>=-eq-ok,
  ok-injective, ◌≡◌, inl, inr, refl, sym, ap, ◌∙◌,
}
use mathlib.Core.Path.{subst}
use vasily.Base.Int.{pos}
use vasily.Backend.{Bytes, packet_time_exceeded}
use vasily.Util.{icmp_proto_num}
use vasily.Icmppkt.{
  IcmpType, ipv4_echo, ipv4_echo_reply, ipv4_destination_unreachable, ipv4_time_exceeded,
  ipv6_echo_request, ipv6_echo_reply, ipv6_destination_unreachable, ipv6_time_exceeded, other_type,
  protocol, MessageBody, echo, dst_unreach, time_exceeded, other_body, IcmpMessage, Parsers, Parsed,
  echo_type, echo_to_packet, slice, decode_udp, ip_header, by_proto, ip_body_to_packet, with_type,
  unreachable_type, dest_unreachable_to_packet, time_exceeded_to_packet, handling, handle_type,
  parse,
}
use vasily.Icmppkt.Ends.{quoted}
use vasily.Icmppkt.Quoted.{
  outer_type, probe_of, Quotes, echoed, quotes_udp, quotes_icmp, lift-eq, with_type-eq, slice-eq,
  decode_udp-eq,
}

module _ (ps : Parsers) (ip_ver : ℕ) (f : Bytes → Option (Result Parsed))
    (sound : (b : Bytes) (p : Parsed) → f b ≡ some (ok p) → Quotes ps ip_ver b (probe_of p))
    (buf : Bytes) (own : ℕ) (m : IcmpMessage) (o : icmp_proto_num ip_ver ≡ ok own)
    (r : ps.parse_message own buf ≡ ok m) where
  by_proto-Quotes :
      (proto len : ℕ) (p : Parsed)
      → ip_header ps ip_ver (quoted m.body) ≡ ok (proto, len)
      → by_proto f own (quoted m.body) (proto, len) ≡ some (ok p)
      → Quotes ps ip_ver buf (probe_of p)
  unfolding by_proto
  by_proto-Quotes proto len p i h = elim (if-eq (proto == own) _ _ h) [
    | inl (q, e) ↦
        let (b, s, k) = lift-eq (slice (quoted m.body) len) f e in
        let at = (==_iff proto own).0 q in
        quotes_icmp own len m o r
          (subst (λ z. ip_header ps ip_ver (quoted m.body) ≡ ok (z, len)) at i)
          (sound (drop len (quoted m.body)) p
            (subst (λ z. f z ≡ some (ok p)) (sym (slice-eq (quoted m.body) b len s)) k))
    | inr (q, e) ↦ elim (if-eq (proto == 17) _ _ e) [
      | inl (u, e) ↦
          let (b, s, k) = lift-eq (slice (quoted m.body) len) (λ b. some (decode_udp b)) e in
          let at = (==_iff proto 17).0 u in
          let c = sym (slice-eq (quoted m.body) b len s) in
          let (h, w, z) =
            decode_udp-eq (drop len (quoted m.body)) p
              (some_injective (subst (λ z. some (decode_udp z) ≡ some (ok p)) c k)) in
          quotes_udp own len m h o r
            (subst (λ z. ip_header ps ip_ver (quoted m.body) ≡ ok (z, len)) at i) w z
      | inr (u, e) ↦ cc
    ]
  ]

  ip_body-Quotes :
      (body : Bytes) (p : Parsed)
      → quoted m.body ≡ body
      → ip_body_to_packet ps f ip_ver body ≡ some (ok p)
      → Quotes ps ip_ver buf (probe_of p)
  unfolding ip_body_to_packet
  ip_body-Quotes body p b h =
      let ((proto, len), i, k) =
        lift-eq (ip_header ps ip_ver (quoted m.body)) _
          (subst (λ z. ip_body_to_packet ps f ip_ver z ≡ some (ok p)) (sym b) h) in
      let (own', o', k) = lift-eq (icmp_proto_num ip_ver) _ k in
      let same = ok-injective (sym o' ∙ o) in
      by_proto-Quotes proto len p i
        (subst (λ z. by_proto f z (quoted m.body) (proto, len) ≡ some (ok p)) same k)

  -- A part that is quoted, with the type put in.
  typed-Quotes :
      (body : Bytes) (t : ℕ) (p : Parsed)
      → quoted m.body ≡ body
      → with_type t (ip_body_to_packet ps f ip_ver body) ≡ some (ok p)
      → Quotes ps ip_ver buf (probe_of p) × (p.packet.packet_type ≡ t)
  typed-Quotes body t p b h =
      let (v, e, s, k) = with_type-eq t (ip_body_to_packet ps f ip_ver body) p h in
      (subst (Quotes ps ip_ver buf) s (ip_body-Quotes body v b e), k)

  unreachable-Quotes :
      (body : MessageBody) (p : Parsed)
      → m.body ≡ body
      → dest_unreachable_to_packet ps f ip_ver m.code body ≡ some (ok p)
      → Quotes ps ip_ver buf (probe_of p)
        × (some (unreachable_type ip_ver m.code) ≡ some p.packet.packet_type)
  unfolding dest_unreachable_to_packet
  unreachable-Quotes (dst_unreach body) p b h =
      let (q, t) = typed-Quotes body (unreachable_type ip_ver m.code) p (ap quoted b) h in
      (q, ap some (sym t))
  unreachable-Quotes (echo id seq payload) p b h = cc
  unreachable-Quotes (time_exceeded body) p b h = cc
  unreachable-Quotes other_body p b h = cc

  exceeded-Quotes :
      (body : MessageBody) (p : Parsed)
      → m.body ≡ body
      → time_exceeded_to_packet ps f ip_ver body ≡ some (ok p)
      → Quotes ps ip_ver buf (probe_of p) × (some packet_time_exceeded ≡ some p.packet.packet_type)
  unfolding time_exceeded_to_packet
  exceeded-Quotes (time_exceeded body) p b h =
      let (q, t) = typed-Quotes body packet_time_exceeded p (ap quoted b) h in (q, ap some (sym t))
  exceeded-Quotes (echo id seq payload) p b h = cc
  exceeded-Quotes (dst_unreach body) p b h = cc
  exceeded-Quotes other_body p b h = cc

  echo-Quotes :
      (t : IcmpType) (body : MessageBody) (p : Parsed)
      → m.icmp_type ≡ t
      → m.body ≡ body
      → some (echo_to_packet t body) ≡ some (ok p)
      → Quotes ps ip_ver buf (probe_of p) × (echo_type t ≡ ok p.packet.packet_type)
  unfolding echo_to_packet
  echo-Quotes t (echo id seq payload) p a b h =
      let (k, e, q) = >>=-eq-ok (echo_type t) _ (some_injective h) in
      (
        echoed own id seq payload m o r b (
            ap probe_of (sym (ok-injective q))
            ∙ ap
                (λ (z : IcmpType). record {
                  id = id;
                  seq = pos seq;
                  payload = payload;
                  proto = protocol z;
                })
                (sym a)),
        e ∙ ap (λ (z : Parsed). ok z.packet.packet_type) (ok-injective q),
      )
  echo-Quotes t (dst_unreach body) p a b h = cc
  echo-Quotes t (time_exceeded body) p a b h = cc
  echo-Quotes t other_body p a b h = cc

  by_type-Quotes :
      (t : IcmpType) (p : Parsed)
      → m.icmp_type ≡ t
      → handle_type ps f ip_ver (record m { icmp_type = t }) (handling t) ≡ some (ok p)
      → Quotes ps ip_ver buf (probe_of p) × (outer_type ip_ver t m.code ≡ some p.packet.packet_type)
  unfolding handle_type
  by_type-Quotes ipv4_destination_unreachable p a h = unreachable-Quotes m.body p refl h
  by_type-Quotes ipv6_destination_unreachable p a h = unreachable-Quotes m.body p refl h
  by_type-Quotes ipv4_time_exceeded p a h = exceeded-Quotes m.body p refl h
  by_type-Quotes ipv6_time_exceeded p a h = exceeded-Quotes m.body p refl h
  by_type-Quotes (other_type proto) p a h = cc
  by_type-Quotes ipv4_echo p a h =
      let (q, e) = echo-Quotes ipv4_echo m.body p a refl h in (q, ap some (ok-injective e))
  by_type-Quotes ipv4_echo_reply p a h =
      let (q, e) = echo-Quotes ipv4_echo_reply m.body p a refl h in (q, ap some (ok-injective e))
  by_type-Quotes ipv6_echo_request p a h =
      let (q, e) = echo-Quotes ipv6_echo_request m.body p a refl h in (q, ap some (ok-injective e))
  by_type-Quotes ipv6_echo_reply p a h =
      let (q, e) = echo-Quotes ipv6_echo_reply m.body p a refl h in (q, ap some (ok-injective e))

-- A packet that `Parse` returns, however deep messages are quoted within messages: its type is the
-- one that the outermost message's type and code stand for, and its id, sequence number, payload
-- and protocol are of the echo or the UDP packet at the end of the quotes.
pub parse-Quotes :
    (ps : Parsers) (ip_ver n : ℕ) (buf : Bytes) (p : Parsed)
    → parse ps n ip_ver buf ≡ some (ok p)
    → Quotes ps ip_ver buf (probe_of p)
      × ((own : ℕ) × (m : IcmpMessage) × (icmp_proto_num ip_ver ≡ ok own)
          × (ps.parse_message own buf ≡ ok m)
          × (outer_type ip_ver m.icmp_type m.code ≡ some p.packet.packet_type))
unfolding parse
parse-Quotes ps ip_ver zero buf p h = cc
parse-Quotes ps ip_ver (suc n) buf p h =
    let (own, o, k) = lift-eq (icmp_proto_num ip_ver) _ h in
    let (m, r, k) = lift-eq (ps.parse_message own buf) _ k in
    let (q, e) =
      by_type-Quotes ps ip_ver (parse ps n ip_ver) (λ b v w. (parse-Quotes ps ip_ver n b v w).0) buf
        own m o r m.icmp_type p refl k in
    (q, (own, m, o, r, e))
