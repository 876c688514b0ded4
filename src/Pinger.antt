-- ===== src/Pinger.antt =====
-- internal/pinger/pinger.go: the operations of a Pinger. Its goroutines are in Pinger/Run.
pub mod Replies
pub mod Run
mod Tests
use vasily.Base.{
  ℕ, suc, ◌+◌, ◌-◌, ◌%◌, ◌^◌, Bool, true, false, Option, none, some, List, [], ◌∷◌, ◌++◌, ◌==◌,
  if◌then◌else◌, Result, ok, err, panic, ◌>>=◌, ◌>>◌,
}
use vasily.Base.Int.{ℤ, pos, negsuc, eqb_ℤ}
use vasily.Backend.{
  Addr, Packet, packet_request, packet_reply, packet_time_exceeded, packet_destination_unreachable,
}
use vasily.History.{
  ResultType, waiting, success, dropped, duplicate, ttl_exceeded, unreachable, PingResult,
  PingHistory, get, add, record_result,
}

-- `*Options`; a nil pointer is `none` where the methods take one.
pub record Options : Type 0 where
  pub n_pings : ℤ
  pub interval : ℤ
  pub history : ℤ
  pub timeout : ℤ

abbrev pub max_int : ℤ
max_int = pos (2 ^ 63 - 1)

abbrev pub second : ℤ
second = pos 1000000000

-- A field of the options, or its default if there are no options or the field is zero.
abbrev pub option_or : Option Options → (Options → ℤ) → ℤ → ℤ
option_or none field default = default
option_or (some o) field default = if eqb_ℤ (field o) (pos 0) then default else field o

unfoldable pub n_pings_of : Option Options → ℤ
n_pings_of o = option_or o (λ r. r.n_pings) max_int

unfoldable pub interval_of : Option Options → ℤ
interval_of o = option_or o (λ r. r.interval) second

unfoldable pub history_of : Option Options → ℤ
history_of o = option_or o (λ r. r.history) (pos 300)

unfoldable pub timeout_of : Option Options → ℤ
timeout_of o = option_or o (λ r. r.timeout) second

-- The results that a reply may still change.
abbrev pub is_open : ResultType → Bool
is_open waiting = true
is_open dropped = true
is_open _ = false

abbrev pub is_waiting : ResultType → Bool
is_waiting waiting = true
is_waiting _ = false

-- The switch over the packet's type: a request is a bug, and an unknown type changes nothing.
unfoldable pub reply_type : ℕ → ResultType → Result ResultType
reply_type t old =
    if t == packet_request
    then panic
    else if t == packet_reply
    then ok success
    else if t == packet_time_exceeded
    then ok ttl_exceeded
    else if t == packet_destination_unreachable
    then ok unreachable
    else ok old

module _ (sqrt_ratio : ℤ → ℕ → ℤ) where
  unfoldable pub handle_reply : (ℕ → ℤ) → PingHistory → Packet → Addr → Result PingHistory
  unfolding reply_type
  handle_reply since h pkt peer = do
    res ← get h pkt.seq
    t ←
        (if is_open res.result_type
          then reply_type pkt.packet_type res.result_type
          else ok duplicate)
    (res, h) ←
        record_result sqrt_ratio since h pkt.seq (record res { result_type = t; peer = some peer })
    ok h

  unfoldable pub maybe_record_timeout : (ℕ → ℤ) → PingHistory → ℤ → Result PingHistory
  maybe_record_timeout since h seq = do
    res ← get h seq
    let recorded = (do
      (res, h) ← record_result sqrt_ratio since h seq (record res { result_type = dropped })
      ok h)
    if is_waiting res.result_type then recorded else ok h

-- `written` is what the connection's `WriteTo` gives.
unfoldable pub send_ping : Result (Unit {0}) → PingHistory → ℤ → ℕ → Result PingHistory
send_ping written h seq now = do written; add h seq now
