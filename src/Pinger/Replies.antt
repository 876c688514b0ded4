-- ===== src/Pinger/Replies.antt =====
-- What a reply and a timeout do to the results.
use vasily.Base.{ℕ, ◌+◌, ◌≤◌, ◌<◌, ◌≡◌, refl, false, if◌then◌else◌, some, true, arith, ok, ◌>>=◌}
use vasily.Base.Int.{ℤ, pos}
use vasily.Backend.{
  Addr, Packet, packet_reply, packet_time_exceeded, packet_destination_unreachable,
}
use vasily.History.{
  ResultType, waiting, success, dropped, duplicate, ttl_exceeded, unreachable, PingResult,
  PingHistory, capacity, rev_results,
}
use vasily.History.Window.{IsAt, put}
use vasily.History.Calls.{
  find, find-put_self, find_live, or_zero, get-rev_results, rev_results-record, counted, failed,
  timed,
}
use vasily.Pinger.{is_open, is_waiting, reply_type, handle_reply, maybe_record_timeout}

-- The type of a result after a reply, by its type before and the type of the packet.
pub data Replied : ResultType → ℕ → ResultType → Type 0 where
  answered : {old : ResultType} → is_open old ≡ true → Replied old packet_reply success
  expired : {old : ResultType} → is_open old ≡ true → Replied old packet_time_exceeded ttl_exceeded
  refused :
      {old : ResultType}
      → is_open old ≡ true
      → Replied old packet_destination_unreachable unreachable
  unknown : {old : ResultType} {t : ℕ} → is_open old ≡ true → 4 ≤ t → Replied old t old
  again : {old : ResultType} {t : ℕ} → is_open old ≡ false → Replied old t duplicate

reply_type-Replied :
    {old : ResultType} {t : ℕ} {new : ResultType}
    → Replied old t new
    → (if is_open old then reply_type t old else ok duplicate) ≡ ok new
unfolding reply_type
reply_type-Replied (answered h) = rw h
reply_type-Replied (expired h) = rw h
reply_type-Replied (refused h) = rw h
reply_type-Replied (unknown h l) = ground arith
reply_type-Replied (again h) = rw h

-- The result that the history lists for a ping.
abbrev pub listed : PingHistory → ℕ → PingResult
listed h seq = or_zero (find seq (rev_results h))

module _ (sqrt_ratio : ℤ → ℕ → ℤ) (since : ℕ → ℤ) where
  -- A reply to a ping that is still in the window changes the listed result of that ping alone: its
  -- peer, its latency, and its type. A ping that waits or was dropped becomes a success, expired or
  -- unreachable by the type of the packet, or keeps its type if that is unknown; any other becomes a
  -- duplicate, which is not counted.
  pub handle_reply-listed :
      (n seq : ℕ) (h : PingHistory) (pkt : Packet) (peer : Addr) (t : ResultType)
      → IsAt n h
      → seq < n
      → n ≤ seq + capacity h
      → pkt.seq ≡ pos seq
      → Replied (listed h seq).result_type pkt.packet_type t
      → let r = record (listed h seq) { result_type = t; peer = some peer } in
        (h' : PingHistory) × (handle_reply sqrt_ratio since h pkt peer ≡ ok h')
        × IsAt n h'
        × (capacity h' ≡ capacity h)
        × (rev_results h' ≡ put seq (timed since r) (rev_results h))
        × (h'.stats.n ≡ h.stats.n + counted t)
        × (h'.stats.failures ≡ h.stats.failures + failed t)
  unfolding handle_reply
  handle_reply-listed n seq h pkt peer t v sent live e et =
      let r = record (listed h seq) { result_type = t; peer = some peer } in
      let (h', recorded, at, cap, window, n', f') =
        rev_results-record sqrt_ratio since n seq h r v sent live in
      (
        h',
        rw (e, get-rev_results n seq h v sent, reply_type-Replied et, recorded),
        at,
        cap,
        window,
        n',
        f',
      )

  -- When the timer of a ping that is still in the window fires while its result is waiting, the
  -- listed result of that ping alone becomes a drop, and is counted as a failure.
  pub maybe_record_timeout_waiting :
      (n seq : ℕ) (h : PingHistory)
      → IsAt n h
      → seq < n
      → n ≤ seq + capacity h
      → (listed h seq).result_type ≡ waiting
      → let r = record (listed h seq) { result_type = dropped } in
        (h' : PingHistory) × (maybe_record_timeout sqrt_ratio since h (pos seq) ≡ ok h')
        × IsAt n h'
        × (capacity h' ≡ capacity h)
        × (rev_results h' ≡ put seq (timed since r) (rev_results h))
        × (h'.stats.n ≡ h.stats.n + 1)
        × (h'.stats.failures ≡ h.stats.failures + 1)
  unfolding maybe_record_timeout
  maybe_record_timeout_waiting n seq h v sent live w =
      let r = record (listed h seq) { result_type = dropped } in
      let (h', recorded, at, cap, window, n', f') =
        rev_results-record sqrt_ratio since n seq h r v sent live in
      (h', rw (get-rev_results n seq h v sent, w, recorded), at, cap, window, n', f')

  pub maybe_record_timeout_answered :
      (n seq : ℕ) (h : PingHistory)
      → IsAt n h
      → seq < n
      → is_waiting (listed h seq).result_type ≡ false
      → maybe_record_timeout sqrt_ratio since h (pos seq) ≡ ok h
  unfolding maybe_record_timeout
  maybe_record_timeout_answered n seq h v sent w = rw (get-rev_results n seq h v sent, w)

  -- A ping that is answered after its timeout is counted twice: once as a failure and once more as
  -- a success.
  pub late_reply_counts_twice :
      (n seq : ℕ) (h : PingHistory) (pkt : Packet) (peer : Addr)
      → IsAt n h
      → seq < n
      → n ≤ seq + capacity h
      → (listed h seq).result_type ≡ waiting
      → pkt.seq ≡ pos seq
      → pkt.packet_type ≡ packet_reply
      → (h' : PingHistory) × ((maybe_record_timeout sqrt_ratio since h (pos seq) >>= λ h1.
            handle_reply sqrt_ratio since h1 pkt peer)
          ≡ ok h')
        × (h'.stats.n ≡ h.stats.n + 2)
        × (h'.stats.failures ≡ h.stats.failures + 1)
  late_reply_counts_twice n seq h pkt peer v sent live w e et =
      let (h1, timed_out, at, cap, window, n1, f1) =
        maybe_record_timeout_waiting n seq h v sent live w in
      let drop = timed since (record (listed h seq) { result_type = dropped }) in
      let found : find seq (rev_results h1) ≡ some drop =
        rw window (find-put_self seq drop (rev_results h) (find_live n seq h v sent live)) in
      let (h2, handled, at2, cap2, window2, n2, f2) =
        handle_reply-listed n seq h1 pkt peer success at sent (rw cap live) e
          (rw (found, et) (answered refl)) in
      (h2, rw (timed_out, handled), omega arith, omega arith)
