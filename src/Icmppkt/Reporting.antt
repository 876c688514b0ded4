-- ===== src/Icmppkt/Reporting.antt =====
-- The ICMP message behind an error of a Linux socket: `Parse` of it and `packetType` of the error.
use vasily.Base.{ℕ, suc, ◌==◌, ◌≤◌, length, Option, Result, ok, ◌≡◌, refl, sym, ap, ◌∙◌}
use mathlib.Core.Path.{subst}
use vasily.Backend.{Bytes, packet_time_exceeded}
use vasily.Util.{icmp_proto_num}
use vasily.Icmppkt.{
  MessageBody, echo, dst_unreach, time_exceeded, other_body, IcmpMessage, Parsers, Parsed,
  SockExtendedErr, packet_type, ip_header, by_proto, ip_body_to_packet, with_type, unreachable_type,
  dest_unreachable_to_packet, time_exceeded_to_packet, exceeds, unreachables, handling, handle_type,
  parse, lift,
}
use vasily.Icmppkt.Ends.{Fits, quoted}
use vasily.Icmppkt.ErrorQueue.{
  Reports, v4_exceeded, v4_unreachable, v6_exceeded, v6_unreachable, by_code_v4, by_code_v6,
}

pub lift-eq_ok {ℓ κ} :
    {A : Type ℓ} {B : Type κ} (a : Result A) (x : A) (f : A → Option (Result B))
    → a ≡ ok x
    → lift a f ≡ f x
lift-eq_ok a x f h = subst (λ r. lift r f ≡ f x) (sym h) refl

-- The extended error that the kernel makes of a message.
abbrev pub ext_err_of : ℕ → ℕ → IcmpMessage → SockExtendedErr
ext_err_of origin typ m = record { origin = origin; ext_type = typ; code = m.code }

module _ (ps : Parsers) (f : Bytes → Option (Result Parsed)) (ip_ver : ℕ) where
  exceeded_quoted :
      (body : MessageBody)
      → Fits exceeds body
      → time_exceeded_to_packet ps f ip_ver body
        ≡ with_type packet_time_exceeded (ip_body_to_packet ps f ip_ver (quoted body))
  unfolding time_exceeded_to_packet
  exceeded_quoted (time_exceeded contents) h = refl
  exceeded_quoted (echo id seq contents) h = elim h [ ]
  exceeded_quoted (dst_unreach contents) h = elim h [ ]
  exceeded_quoted other_body h = elim h [ ]

  unreachable_quoted :
      (code : ℕ) (body : MessageBody)
      → Fits unreachables body
      → dest_unreachable_to_packet ps f ip_ver code body
        ≡ with_type (unreachable_type ip_ver code) (ip_body_to_packet ps f ip_ver (quoted body))
  unfolding dest_unreachable_to_packet
  unreachable_quoted code (dst_unreach contents) h = refl
  unreachable_quoted code (echo id seq contents) h = elim h [ ]
  unreachable_quoted code (time_exceeded contents) h = elim h [ ]
  unreachable_quoted code other_body h = elim h [ ]

  -- What the message is handled as, with the type that the error gives.
  abbrev Handled : ℕ → ℕ → IcmpMessage → Type 0
  Handled origin typ m =
      (t : ℕ) × (packet_type (ext_err_of origin typ m) ≡ ok t)
      × (handle_type ps f ip_ver m (handling m.icmp_type)
          ≡ with_type t (ip_body_to_packet ps f ip_ver (quoted m.body)))

  exceeded-Handled :
      (origin typ : ℕ) (m : IcmpMessage)
      → handling m.icmp_type ≡ exceeds
      → packet_type (ext_err_of origin typ m) ≡ ok packet_time_exceeded
      → Fits (handling m.icmp_type) m.body
      → Handled origin typ m
  unfolding handle_type
  exceeded-Handled origin typ m e t h = (
    packet_time_exceeded,
    t,
    ap (handle_type ps f ip_ver m) e ∙ exceeded_quoted m.body (subst (λ k. Fits k m.body) e h),
  )

  unreachable-Handled :
      (origin typ : ℕ) (m : IcmpMessage)
      → handling m.icmp_type ≡ unreachables
      → packet_type (ext_err_of origin typ m) ≡ ok (unreachable_type ip_ver m.code)
      → Fits (handling m.icmp_type) m.body
      → Handled origin typ m
  unfolding handle_type
  unreachable-Handled origin typ m e t h = (
    unreachable_type ip_ver m.code,
    t,
    ap (handle_type ps f ip_ver m) e
        ∙ unreachable_quoted m.code m.body (subst (λ k. Fits k m.body) e h),
  )

Reports-Handled :
    (ps : Parsers) (f : Bytes → Option (Result Parsed)) {ip_ver origin typ : ℕ} (m : IcmpMessage)
    → Reports ip_ver origin typ m.icmp_type
    → Fits (handling m.icmp_type) m.body
    → Handled ps f ip_ver origin typ m
unfolding packet_type
Reports-Handled ps f m (v4_exceeded e) h = exceeded-Handled ps f 4 2 11 m (ap handling e) refl h
Reports-Handled ps f m (v6_exceeded e) h = exceeded-Handled ps f 6 3 3 m (ap handling e) refl h
Reports-Handled ps f m (v4_unreachable e) h =
    unreachable-Handled ps f 4 2 3 m (ap handling e) (by_code_v4 (m.code == 3)) h
Reports-Handled ps f m (v6_unreachable e) h =
    unreachable-Handled ps f 6 3 1 m (ap handling e) (by_code_v6 (m.code == 4)) h

-- A router's message, that a packet could not be passed on, and the error that Linux reports for
-- it: the quoted packet is that of protocol `proto`, from `len` on.
pub record IsReported (ps : Parsers) (ip_ver origin typ : ℕ) (buf : Bytes) (proto len : ℕ)
    : Type 0 where
  pub own : ℕ
  pub m : IcmpMessage
  pub version : icmp_proto_num ip_ver ≡ ok own
  pub parsed : ps.parse_message own buf ≡ ok m
  pub fits : Fits (handling m.icmp_type) m.body
  pub reports : Reports ip_ver origin typ m.icmp_type
  pub header : ip_header ps ip_ver (quoted m.body) ≡ ok (proto, len)
  pub within : len ≤ length (quoted m.body)

pub parse-IsReported :
    (ps : Parsers) (ip_ver origin typ n : ℕ) (buf : Bytes) (proto len : ℕ)
    → (r : IsReported ps ip_ver origin typ buf proto len)
    → (t : ℕ) × (packet_type (ext_err_of origin typ r.m) ≡ ok t)
      × (parse ps (suc n) ip_ver buf
          ≡ with_type t (by_proto (parse ps n ip_ver) r.own (quoted r.m.body) (proto, len)))
unfolding parse ip_body_to_packet
parse-IsReported ps ip_ver origin typ n buf proto len r =
    let (t, p, h) = Reports-Handled ps (parse ps n ip_ver) r.m r.reports r.fits in
    (
      t,
      p,
      lift-eq_ok (icmp_proto_num ip_ver) r.own _ r.version
          ∙ lift-eq_ok (ps.parse_message r.own buf) r.m _ r.parsed
          ∙ h
          ∙ ap (with_type t) (
              lift-eq_ok (ip_header ps ip_ver (quoted r.m.body)) (proto, len) _ r.header
              ∙ lift-eq_ok (icmp_proto_num ip_ver) r.own _ r.version),
    )
