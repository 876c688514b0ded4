-- ===== src/Icmppkt/ErrorQueue.antt =====
-- The error queue of a Linux socket against the ICMP messages themselves.
use vasily.Base.{ℕ, Bool, true, false, ◌||◌, if◌then◌else◌, ok, ◌≡◌, refl}
use vasily.Backend.{packet_reply, packet_destination_unreachable}
use vasily.Icmppkt.{
  IcmpType, ipv4_destination_unreachable, ipv4_time_exceeded, ipv6_destination_unreachable,
  ipv6_time_exceeded,
}

-- An IP version, the origin and type of a socket's error, and the type of the ICMP message that the
-- error reports.
pub data Reports : ℕ → ℕ → ℕ → IcmpType → Type 0 where
  v4_exceeded : {t : IcmpType} → t ≡ ipv4_time_exceeded → Reports 4 2 11 t
  v4_unreachable : {t : IcmpType} → t ≡ ipv4_destination_unreachable → Reports 4 2 3 t
  v6_exceeded : {t : IcmpType} → t ≡ ipv6_time_exceeded → Reports 6 3 3 t
  v6_unreachable : {t : IcmpType} → t ≡ ipv6_destination_unreachable → Reports 6 3 1 t

pub by_code_v4 :
    (b : Bool)
    → (if b then ok packet_reply else ok packet_destination_unreachable)
      ≡ ok (if b || false then packet_reply else packet_destination_unreachable)
by_code_v4 true = refl
by_code_v4 false = refl

pub by_code_v6 :
    (b : Bool)
    → (if b then ok packet_reply else ok packet_destination_unreachable)
      ≡ ok (if b then packet_reply else packet_destination_unreachable)
by_code_v6 true = refl
by_code_v6 false = refl
