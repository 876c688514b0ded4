-- ===== src/Icmppkt/Ends.antt =====
-- internal/util/icmppkt: the depth of the recursion of `Parse`.
use vasily.Base.{
  ℕ, zero, suc, ◌<◌, ◌≤◌, ◌==◌, Bool-cases, Option, some, if-eq, >>=-eq-ok, ok-injective,
  unrecognized_proto, unhandled_type, length, drop, Result, ok, err, panic, ◌>>=◌, ◌≡◌, ◌≢◌, ◌⊎◌,
  inl, inr, refl, ap, ◌∙◌, arith, [], ◌∷◌,
}
use mathlib.Core.Path.{subst}
use vasily.Backend.{Bytes, packet_time_exceeded}
use vasily.Udppkt.Headers.{parse_udp_header-length}
use vasily.Util.{icmp_proto_num}
use vasily.Icmppkt.{
  IcmpType, ipv4_echo, ipv4_echo_reply, ipv4_destination_unreachable, ipv4_time_exceeded,
  ipv6_echo_request, ipv6_echo_reply, ipv6_destination_unreachable, ipv6_time_exceeded, other_type,
  MessageBody, echo, dst_unreach, time_exceeded, other_body, IcmpMessage, Parsers, Parsed,
  echo_to_packet, slice, decode_udp, lift, ip_header, by_proto, ip_body_to_packet, with_type,
  unreachable_type, dest_unreachable_to_packet, time_exceeded_to_packet, Handling, echoes,
  unreachables, exceeds, unhandled, handling, handle_type, parse,
}

-- The body that the parser of x/net makes for the types that are handled.
abbrev pub Fits : Handling → MessageBody → Type 0
Fits echoes (echo id seq contents) = Unit {0}
Fits unreachables (dst_unreach contents) = Unit {0}
Fits exceeds (time_exceeded contents) = Unit {0}
Fits unhandled body = Unit {0}
Fits _ _ = ⊥

-- The part of the message that is quoted, none for an echo.
abbrev pub quoted : MessageBody → Bytes
quoted (echo id seq contents) = []
quoted (dst_unreach contents) = contents
quoted (time_exceeded contents) = contents
quoted other_body = []

-- What x/net promises of its parsers: they do not panic, the body fits the type, a quoted part is
-- shorter than its message, and a header is not longer than what it is in.
pub record Documented (ps : Parsers) : Type 0 where
  pub message_returns : (proto : ℕ) (b : Bytes) → ps.parse_message proto b ≢ panic
  pub v4_returns : (b : Bytes) → ps.parse_header_v4 b ≢ panic
  pub v6_returns : (b : Bytes) → ps.parse_header_v6 b ≢ panic
  pub fits :
      (proto : ℕ) (b : Bytes) (m : IcmpMessage)
      → ps.parse_message proto b ≡ ok m
      → Fits (handling m.icmp_type) m.body
  pub shorter :
      (proto : ℕ) (b : Bytes) (m : IcmpMessage)
      → ps.parse_message proto b ≡ ok m
      → length (quoted m.body) < length b
  pub v4_len : (b : Bytes) (p n : ℕ) → ps.parse_header_v4 b ≡ ok (p, n) → n ≤ length b
  pub v6_len : (b : Bytes) (p : ℕ) → ps.parse_header_v6 b ≡ ok p → 40 ≤ length b

-- Two runs that end in the same way, not in a panic.
abbrev pub Agree : Option (Result Parsed) → Option (Result Parsed) → Type 0
Agree x y = (r : Result Parsed) × (x ≡ some r) × (y ≡ some r) × (r ≢ panic)

lift-Agree {ℓ} :
    {A : Type ℓ} (a : Result A) (f g : A → Option (Result Parsed))
    → a ≢ panic
    → ((x : A) → a ≡ ok x → Agree (f x) (g x))
    → Agree (lift a f) (lift a g)
lift-Agree panic f g n h = absurd (n refl)
lift-Agree (err e) f g n h = (err e, refl, refl, λ q. cc)
lift-Agree (ok x) f g n h = h x refl

with_type-Agree :
    (t : ℕ) (x y : Option (Result Parsed)) → Agree x y → Agree (with_type t x) (with_type t y)
with_type-Agree t x y (r, p, q, n) =
    let (s, k, m) = kept r n in (s, ap (with_type t) p ∙ k, ap (with_type t) q ∙ k, m)
  where
    kept :
        (r : Result Parsed)
        → r ≢ panic
        → (s : Result Parsed) × (with_type t (some r) ≡ some s) × (s ≢ panic)
    kept (ok v) n = (_, refl, λ q. cc)
    kept (err e) n = (err e, refl, λ q. cc)
    kept panic n = absurd (n refl)

pub slice_ok : (b : Bytes) (n : ℕ) → n ≤ length b → slice b n ≡ ok (drop n b)
slice_ok b n h = ground arith

drop_shorter : (n : ℕ) (b : Bytes) → length (drop n b) ≤ length b
drop_shorter zero b = omega arith
drop_shorter (suc n) [] = omega arith
drop_shorter (suc n) (x ∷ b) = omega (arith, drop_shorter n b)

decode_udp_returns : (b : Bytes) → decode_udp b ≢ panic
unfolding decode_udp
decode_udp_returns b h = elim (parse_udp_header-length b) [
  | inl (n, (u, e)) ↦ cc
  | inr (n, inl e) ↦ cc
  | inr (n, inr e) ↦ cc
]

ip_header_len :
    (ps : Parsers) (ip_ver : ℕ) (b : Bytes) (p n : ℕ)
    → Documented ps
    → ip_header ps ip_ver b ≡ ok (p, n)
    → n ≤ length b
unfolding ip_header
ip_header_len ps ip_ver b p n d h = elim (if-eq (ip_ver == 4) _ _ h) [
  | inl (q, e) ↦ d.v4_len b p n e
  | inr (q, e) ↦ elim (if-eq (ip_ver == 6) _ _ e) [
    | inl (q, e) ↦
        let (x, f, k) = >>=-eq-ok (ps.parse_header_v6 b) _ e in
        subst (λ z. z ≤ length b) (ap (λ (z : ℕ × ℕ). z.1) (ok-injective k)) (d.v6_len b x f)
    | inr (q, e) ↦ cc
  ]
]

echo_returns :
    (t : IcmpType) (id seq : ℕ) (contents : Bytes)
    → handling t ≡ echoes
    → echo_to_packet t (echo id seq contents) ≢ panic
unfolding echo_to_packet
echo_returns ipv4_echo id seq contents h e = cc
echo_returns ipv4_echo_reply id seq contents h e = cc
echo_returns ipv6_echo_request id seq contents h e = cc
echo_returns ipv6_echo_reply id seq contents h e = cc
echo_returns ipv4_destination_unreachable id seq contents h e = cc
echo_returns ipv6_destination_unreachable id seq contents h e = cc
echo_returns ipv4_time_exceeded id seq contents h e = cc
echo_returns ipv6_time_exceeded id seq contents h e = cc
echo_returns (other_type proto) id seq contents h e = cc

-- An IP version that is 4 or 6.
abbrev pub IsVersion : ℕ → Type 0
IsVersion ip_ver = (ip_ver ≡ 4) ⊎ (ip_ver ≡ 6)

ip_header_returns :
    (ps : Parsers) (ip_ver : ℕ) (b : Bytes)
    → Documented ps
    → IsVersion ip_ver
    → ip_header ps ip_ver b ≢ panic
unfolding ip_header
ip_header_returns ps ip_ver b d (inl v) = rw v (d.v4_returns b)
ip_header_returns ps ip_ver b d (inr v) = rw v (kept (ps.parse_header_v6 b) (d.v6_returns b))
  where
    paired : ℕ → Result (ℕ × ℕ)
    paired proto = ok (proto, 40)

    kept : (r : Result ℕ) → r ≢ panic → (r >>= paired) ≢ panic
    kept (ok x) n h = cc
    kept (err e) n h = cc
    kept panic n h = n refl

icmp_proto_num_returns : (ip_ver : ℕ) → IsVersion ip_ver → icmp_proto_num ip_ver ≢ panic
icmp_proto_num_returns ip_ver (inl v) h = ground arith
icmp_proto_num_returns ip_ver (inr v) h = ground arith

module _ (ps : Parsers) (d : Documented ps) (ip_ver : ℕ) (v : IsVersion ip_ver) where
  module _ (f g : Bytes → Option (Result Parsed)) (buf : Bytes)
      (h : (b : Bytes) → length b ≤ length buf → Agree (f b) (g b)) where
    by_proto-Agree :
        (own p n : ℕ)
        → n ≤ length buf
        → Agree (by_proto f own buf (p, n)) (by_proto g own buf (p, n))
    unfolding by_proto
    by_proto-Agree own p n k = rw (slice_ok buf n k) (elim (Bool-cases (p == own)) [
      | inl q ↦ rw q (h (drop n buf) (drop_shorter n buf))
      | inr q ↦ rw q (elim (Bool-cases (p == 17)) [
        | inl u ↦ rw u (decode_udp (drop n buf), refl, refl, decode_udp_returns (drop n buf))
        | inr u ↦ rw u (err unrecognized_proto, refl, refl, λ q. cc)
      ])
    ])

    ip_body-Agree : Agree (ip_body_to_packet ps f ip_ver buf) (ip_body_to_packet ps g ip_ver buf)
    unfolding ip_body_to_packet
    ip_body-Agree =
        lift-Agree (ip_header ps ip_ver buf) _ _ (ip_header_returns ps ip_ver buf d v) (λ (p, n) e.
          lift-Agree (icmp_proto_num ip_ver) _ _ (icmp_proto_num_returns ip_ver v)
            (λ own q. by_proto-Agree own p n (ip_header_len ps ip_ver buf p n d e)))

  handle_type-Agree :
      (f g : Bytes → Option (Result Parsed)) (rm : IcmpMessage) (k : Handling)
      → handling rm.icmp_type ≡ k
      → Fits k rm.body
      → ((b : Bytes) → length b ≤ length (quoted rm.body) → Agree (f b) (g b))
      → Agree (handle_type ps f ip_ver rm k) (handle_type ps g ip_ver rm k)
  unfolding handle_type dest_unreachable_to_packet time_exceeded_to_packet
  handle_type-Agree f g rm k e fits h = by_body k rm.body e fits h
    where
      by_body :
          (k : Handling) (body : MessageBody)
          → handling rm.icmp_type ≡ k
          → Fits k body
          → ((b : Bytes) → length b ≤ length (quoted body) → Agree (f b) (g b))
          → Agree
              (handle_type ps f ip_ver (record rm { body = body }) k)
              (handle_type ps g ip_ver (record rm { body = body }) k)
      by_body echoes (echo id seq contents) e t h =
          (_, refl, refl, echo_returns rm.icmp_type id seq contents e)
      by_body unreachables (dst_unreach contents) e t h =
          with_type-Agree (unreachable_type ip_ver rm.code) _ _ (ip_body-Agree f g contents h)
      by_body exceeds (time_exceeded contents) e t h =
          with_type-Agree packet_time_exceeded _ _ (ip_body-Agree f g contents h)
      by_body unhandled body e t h = (err unhandled_type, refl, refl, λ q. cc)
      by_body echoes (dst_unreach contents) e t h = absurd t
      by_body echoes (time_exceeded contents) e t h = absurd t
      by_body echoes other_body e t h = absurd t
      by_body unreachables (echo id seq contents) e t h = absurd t
      by_body unreachables (time_exceeded contents) e t h = absurd t
      by_body unreachables other_body e t h = absurd t
      by_body exceeds (echo id seq contents) e t h = absurd t
      by_body exceeds (dst_unreach contents) e t h = absurd t
      by_body exceeds other_body e t h = absurd t

-- `Parse` ends on every buffer and does not panic, given parsers of IP headers and ICMP messages
-- that do as documented and an IP version of 4 or 6: with any fuel beyond the length of the buffer
-- there is a result or an error, and it is the same with any other such fuel.
pub parse_ends :
    (ps : Parsers) (ip_ver n m : ℕ) (buf : Bytes)
    → Documented ps
    → IsVersion ip_ver
    → length buf < n
    → length buf < m
    → Agree (parse ps n ip_ver buf) (parse ps m ip_ver buf)
unfolding parse
parse_ends ps ip_ver zero m buf d v h k = absurd (omega (arith, h))
parse_ends ps ip_ver (suc n) zero buf d v h k = absurd (omega (arith, k))
parse_ends ps ip_ver (suc n) (suc m) buf d v h k =
    lift-Agree (icmp_proto_num ip_ver) _ _ (icmp_proto_num_returns ip_ver v) (λ proto e.
      lift-Agree (ps.parse_message proto buf) _ _ (d.message_returns proto buf) (λ rm q.
        handle_type-Agree ps d ip_ver v (parse ps n ip_ver) (parse ps m ip_ver) rm
          (handling rm.icmp_type) refl (d.fits proto buf rm q)
          (λ b l.
            let s = d.shorter proto buf rm q in
            parse_ends ps ip_ver n m b d v (omega (arith, h, l, s)) (omega (arith, k, l, s)))))
