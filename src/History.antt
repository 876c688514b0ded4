-- ===== src/History.antt =====
-- internal/pinger/history.go: the ring of the latest results and the running statistics.
pub mod Window
pub mod Calls
pub mod Counts
mod Tests
use vasily.Base.{
  ℕ, zero, suc, ◌+◌, ◌-◌, ◌*◌, ◌/◌, ◌%◌, Bool, true, false, not, ◌&&◌, Option, none, some, List, [],
  ◌∷◌, length, get_elem?, set, replicate, reverse, map, ◌==◌, ltb, leb, if◌then◌else◌, Result, ok,
  err, panic, ensure, ◌>>=◌, ◌>>◌,
}
use vasily.Base.Int.{
  ℤ, pos, negsuc, ◌+ℤ◌, ◌-ℤ◌, ◌*ℤ◌, ltb_ℤ, eqb_ℤ, wrap64, quot, pos_part, neg_part,
}
use vasily.Backend.{Addr}

pub data ResultType : Type 0 where
  waiting success dropped duplicate ttl_exceeded unreachable : ResultType

abbrev pub is_success : ResultType → Bool
is_success success = true
is_success _ = false

abbrev pub is_duplicate : ResultType → Bool
is_duplicate duplicate = true
is_duplicate _ = false

-- A time is counted from Go's zero time, which is 0; a latency is a `time.Duration`.
pub record PingResult : Type 0 where
  pub result_type : ResultType
  pub time : ℕ
  pub latency : ℤ
  pub peer : Option Addr

abbrev pub zero_result : PingResult
zero_result = record { result_type = waiting; time = 0; latency = pos 0; peer = none }

pub record Stats : Type 0 where
  pub n : ℕ
  pub failures : ℕ
  pub avg_latency : ℤ
  pub std_dev : ℤ

-- The clock is an argument of the calls that read it, and the field `len` is never used.
pub record PingHistory : Type 0 where
  pub history : List PingResult
  pub stats : Stats
  pub m2 : ℤ
  pub last_seq : ℤ

unfoldable pub new_history : ℕ → PingHistory
new_history n = record {
  history = replicate n zero_result;
  stats = record { n = 0; failures = 0; avg_latency = pos 0; std_dev = pos 0 };
  m2 = pos 0;
  last_seq = negsuc 0;
}

abbrev pub capacity : PingHistory → ℕ
capacity h = length h.history

-- `seq % len(h.history)` as an index. The remainder of a negative number is not positive, and
-- neither a negative index nor a division by zero is recovered.
unfoldable pub slot : ℤ → ℕ → Result ℕ
slot (pos n) len = if len == 0 then panic else ok (n % len)
slot (negsuc k) len = if len == 0 then panic else if suc k % len == 0 then ok 0 else panic

-- A read in range; the zero result stands for a read that no caller makes.
abbrev pub entry : List PingResult → ℕ → PingResult
entry rs i = elim (get_elem? rs i) [ none ↦ zero_result | some r ↦ r ]

unfoldable pub get : PingHistory → ℤ → Result PingResult
unfolding slot ◌-ℤ◌ ◌+ℤ◌
get h seq =
    let live = (do i ← slot seq (capacity h); ok (entry h.history i)) in
    if ltb_ℤ seq (h.last_seq -ℤ pos (capacity h) +ℤ pos 1) then ok zero_result else live

unfoldable pub add : PingHistory → ℤ → ℕ → Result PingHistory
unfolding slot ◌+ℤ◌
add h seq now = do
  ensure (eqb_ℤ (h.last_seq +ℤ pos 1) seq)
  i ← slot seq (capacity h)
  ok (record h {
    history =
        set h.history i
          (record { result_type = waiting; time = now; latency = pos 0; peer = none });
    last_seq = seq;
  })

-- `Latest` and `Stats` read the state.
unfoldable pub latest : PingHistory → Result PingResult
unfolding slot
latest h =
    let newest = (do i ← slot h.last_seq (capacity h); ok (entry h.history i)) in
    if eqb_ℤ h.last_seq (negsuc 0) then ok zero_result else newest

-- The body of the loop in `RevResults`, `n` times from `seq` down.
unfoldable pub rev_loop : List PingResult → ℕ → ℕ → List (ℕ × PingResult)
rev_loop rs zero seq = []
rev_loop rs (suc n) seq = (seq, entry rs (seq % length rs)) ∷ rev_loop rs n (seq - 1)

-- From `last_seq` down to `last_seq - len + 1`, or to 0 if that is negative.
unfoldable pub rev_results : PingHistory → List (ℕ × PingResult)
unfolding rev_loop
rev_results h = elim h.last_seq [
  | pos seq ↦ let first_seq = seq + 1 - capacity h in rev_loop h.history (seq + 1 - first_seq) seq
  | negsuc k ↦ []
]

-- `History` collects the results of `RevResults` and turns them round.
unfoldable pub history_list : PingHistory → List PingResult
unfolding rev_results
history_list h = reverse (map (λ p. p.1) (rev_results h))

-- The streaming average over `n` successes, of which `latency` is the last. Durations are int64 and
-- wrap.
unfoldable pub next_avg : ℕ → ℤ → ℤ → ℤ
next_avg n prev_avg latency = quot (wrap64 (wrap64 (pos (n - 1) *ℤ prev_avg) +ℤ latency)) n

-- The streaming sum of squared deviations.
unfoldable pub next_m2 : ℤ → ℤ → ℤ → ℤ → ℤ
next_m2 m2 prev_avg avg latency =
    wrap64 (m2 +ℤ wrap64 (wrap64 (latency -ℤ prev_avg) *ℤ wrap64 (latency -ℤ avg)))

-- `sqrt_ratio m2 n` is the floating-point `time.Duration(math.Sqrt(float64(m2) / float64(n)))`.
module _ (sqrt_ratio : ℤ → ℕ → ℤ) where
  -- The early return on a failure, and the rest. The number of successes that `next_avg` divides by
  -- is positive: one has just been counted.
  unfoldable pub add_stats_for : PingHistory → PingResult → PingHistory
  add_stats_for h r =
      let count = h.stats.n + 1 in
      let prev_avg = h.stats.avg_latency in
      let avg = next_avg (count - h.stats.failures) prev_avg r.latency in
      let m2 = next_m2 h.m2 prev_avg avg r.latency in
      if not (is_success r.result_type)
      then record h { stats = record (h.stats) { n = count; failures = h.stats.failures + 1 } }
      else record h {
        stats = record (h.stats) { n = count; avg_latency = avg; std_dev = sqrt_ratio m2 count };
        m2 = m2;
      }

  -- `since` is the clock's `Since` at the time of the call.
  unfoldable pub record_result :
      (ℕ → ℤ) → PingHistory → ℤ → PingResult → Result (PingResult × PingHistory)
  unfolding slot ◌-ℤ◌
  record_result since h seq r =
      let timed = record r { latency = since r.time } in
      let recorded = (do
        i ← slot seq (capacity h)
        let h' = record h { history = set h.history i timed }
        ok (timed, if is_duplicate r.result_type then h' else add_stats_for h' timed)) in
      if ltb_ℤ (h.last_seq -ℤ seq) (pos (capacity h)) then recorded else ok (r, h)
