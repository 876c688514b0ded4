-- ===== src/History/Calls.antt =====
-- `Get` and `Record` against the window of results.
use vasily.Base.{
  ℕ, zero, suc, ◌+◌, ◌-◌, ◌%◌, ◌≤◌, ◌<◌, min, ◌≡◌, refl, sym, ap, ◌∙◌, ◌==◌, if◌then◌else◌, Option,
  none, some, List, [], ◌∷◌, length, length-set, arith, ok,
}
use vasily.Base.Int.{ℤ, pos}
use native.Mathlib.Decide.{dec_lt, dec_le}
use vasily.History.{
  ResultType, success, duplicate, PingResult, zero_result, PingHistory, capacity, entry, get,
  rev_loop, rev_results, record_result, add_stats_for, is_duplicate,
}
use vasily.History.Window.{IsAt, put, rev_results-IsAt, rev_results-rewritten, rewritten}

-- The result that the window has for a number.
unfoldable pub find : ℕ → List (ℕ × PingResult) → Option PingResult
find q [] = none
find q ((t, r) ∷ rs) = if t == q then some r else find q rs

abbrev pub or_zero : Option PingResult → PingResult
or_zero none = zero_result
or_zero (some r) = r

find-rev_loop :
    (rs : List PingResult) (q k s : ℕ)
    → q ≤ s
    → s < q + k
    → find q (rev_loop rs k s) ≡ some (entry rs (q % length rs))
unfolding find rev_loop
find-rev_loop rs q zero s le lt = absurd (omega arith)
find-rev_loop rs q (suc k) s le lt =
    ground (arith, find-rev_loop rs q k (s - 1), ap (λ t. entry rs (t % length rs)) {x = s} {y = q})

find-rev_loop-none :
    (rs : List PingResult) (q k s : ℕ) → q + k ≤ s → find q (rev_loop rs k s) ≡ none
unfolding find rev_loop
find-rev_loop-none rs q zero s le = refl
find-rev_loop-none rs q (suc k) s le = ground (arith, find-rev_loop-none rs q k (s - 1))

get_live :
    (n seq : ℕ) (h : PingHistory)
    → IsAt n h
    → n ≤ seq + capacity h
    → get h (pos seq) ≡ ok (entry h.history (seq % capacity h))
unfolding get
get_live zero seq h v live = ground arith
get_live (suc n) seq h v live = ground arith

get_gone :
    (n seq : ℕ) (h : PingHistory)
    → IsAt n h
    → seq + capacity h < n
    → get h (pos seq) ≡ ok zero_result
unfolding get
get_gone zero seq h v gone = absurd (omega arith)
get_gone (suc n) seq h v gone = ground arith

-- For every number that has been sent, `Get` gives the result that `RevResults` lists for it, and
-- the zero result if it lists none.
pub get-rev_results :
    (n seq : ℕ) (h : PingHistory)
    → IsAt n h
    → seq < n
    → get h (pos seq) ≡ ok (or_zero (find seq (rev_results h)))
get-rev_results n seq h v sent = elim (dec_le n (seq + capacity h)) [
  | yes live ↦
      get_live n seq h v live
      ∙ rw (
        rev_results-IsAt n h v,
        find-rev_loop h.history seq (min n (capacity h)) (n - 1) (omega arith) (omega arith),
      )
  | no gone ↦
      get_gone n seq h v (omega arith)
      ∙ rw (
        rev_results-IsAt n h v,
        find-rev_loop-none h.history seq (min n (capacity h)) (n - 1) (omega arith),
      )
]

-- A number that was never sent is not told apart from the ping one capacity before it.
pub get_unsent :
    (n seq : ℕ) (h : PingHistory)
    → IsAt n h
    → seq < n
    → n ≤ seq + capacity h
    → get h (pos (seq + capacity h)) ≡ get h (pos seq)
get_unsent n seq h v sent live =
    get_live n (seq + capacity h) h v (omega arith)
    ∙ ap (λ i. ok (entry h.history i)) (grind arith)
    ∙ sym (get_live n seq h v live)

-- What `Record` adds to `N` and to `Failures`.
abbrev pub counted : ResultType → ℕ
counted duplicate = 0
counted _ = 1

abbrev pub failed : ResultType → ℕ
failed success = 0
failed duplicate = 0
failed _ = 1

-- A result with the latency measured now; `since` is the clock's `Since`.
abbrev pub timed : (ℕ → ℤ) → PingResult → PingResult
timed since r = record r { latency = since r.time }

module _ (sqrt_ratio : ℤ → ℕ → ℤ) (since : ℕ → ℤ) where
  abbrev pub recorded : PingHistory → ℕ → PingResult → PingHistory
  recorded h seq r =
      let h' = rewritten h seq (timed since r) in
      if is_duplicate r.result_type then h' else add_stats_for sqrt_ratio h' (timed since r)

  record_live :
      (n seq : ℕ) (h : PingHistory) (r : PingResult)
      → IsAt n h
      → n ≤ seq + capacity h
      → record_result sqrt_ratio since h (pos seq) r ≡ ok (timed since r, recorded h seq r)
  unfolding record_result
  record_live zero seq h r v live = ground arith
  record_live (suc n) seq h r v live = ground arith

  -- A reply that comes too late leaves the history as it was.
  pub record_late :
      (n seq : ℕ) (h : PingHistory) (r : PingResult)
      → IsAt n h
      → seq + capacity h < n
      → record_result sqrt_ratio since h (pos seq) r ≡ ok (r, h)
  unfolding record_result
  record_late zero seq h r v late = absurd (omega arith)
  record_late (suc n) seq h r v late = ground arith

  add_stats-IsAt :
      (n : ℕ) (h : PingHistory) (r : PingResult) → IsAt n h → IsAt n (add_stats_for sqrt_ratio h r)
  unfolding add_stats_for
  add_stats-IsAt n h r v = ground arith

  capacity-add_stats :
      (h : PingHistory) (r : PingResult) → capacity (add_stats_for sqrt_ratio h r) ≡ capacity h
  unfolding add_stats_for
  capacity-add_stats h r = ground arith

  rev_results-add_stats :
      (h : PingHistory) (r : PingResult)
      → rev_results (add_stats_for sqrt_ratio h r) ≡ rev_results h
  unfolding add_stats_for rev_results
  rev_results-add_stats h r = ground arith

  rewritten-IsAt :
      (n seq : ℕ) (h : PingHistory) (r : PingResult) → IsAt n h → IsAt n (rewritten h seq r)
  rewritten-IsAt n seq h r v = record { room = rw length-set v.room; last = v.last }

  recorded-IsAt :
      (n seq : ℕ) (h : PingHistory) (r : PingResult) → IsAt n h → IsAt n (recorded h seq r)
  recorded-IsAt n seq h r v = ground (
    arith,
    rewritten-IsAt n seq h (timed since r) v,
    add_stats-IsAt n (rewritten h seq (timed since r)) (timed since r),
  )

  recorded_counts :
      (seq : ℕ) (h : PingHistory) (r : PingResult)
      → ((recorded h seq r).stats.n ≡ h.stats.n + counted r.result_type)
        × ((recorded h seq r).stats.failures ≡ h.stats.failures + failed r.result_type)
  unfolding add_stats_for
  recorded_counts seq h r = ground arith

  -- `Record` for a ping that is still in the window stores the result under its number with the
  -- latency measured now, and leaves the other results. It counts every result but a duplicate,
  -- and as a failure every counted one but a success.
  pub rev_results-record :
      (n seq : ℕ) (h : PingHistory) (r : PingResult)
      → IsAt n h
      → seq < n
      → n ≤ seq + capacity h
      → (h' : PingHistory) × (record_result sqrt_ratio since h (pos seq) r ≡ ok (timed since r, h'))
        × IsAt n h'
        × (capacity h' ≡ capacity h)
        × (rev_results h' ≡ put seq (timed since r) (rev_results h))
        × (h'.stats.n ≡ h.stats.n + counted r.result_type)
        × (h'.stats.failures ≡ h.stats.failures + failed r.result_type)
  rev_results-record n seq h r v sent live = (
    recorded h seq r,
    record_live n seq h r v live,
    recorded-IsAt n seq h r v,
    same_capacity,
    window,
    (recorded_counts seq h r).0,
    (recorded_counts seq h r).1,
  )
    where
      same_capacity : capacity (recorded h seq r) ≡ capacity h
      same_capacity = ground (
        arith,
        length-set h.history (seq % capacity h) (timed since r),
        capacity-add_stats (rewritten h seq (timed since r)) (timed since r),
      )

      window : rev_results (recorded h seq r) ≡ put seq (timed since r) (rev_results h)
      window = ground (
        arith,
        rev_results-add_stats (rewritten h seq (timed since r)) (timed since r),
        rev_results-rewritten n seq h (timed since r) v,
      )

-- A number that is listed has the result that was put under it.
pub find-put_self :
    (q : ℕ) (v : PingResult) (rs : List (ℕ × PingResult)) {old : PingResult}
    → find q rs ≡ some old
    → find q (put q v rs) ≡ some v
unfolding find put
find-put_self q v [] h = absurd (cc)
find-put_self q v ((t, r) ∷ rs) {old} h = ground (arith, find-put_self q v rs {old = old})

pub find_live :
    (n seq : ℕ) (h : PingHistory)
    → IsAt n h
    → seq < n
    → n ≤ seq + capacity h
    → find seq (rev_results h) ≡ some (entry h.history (seq % capacity h))
find_live n seq h v sent live =
    rw (rev_results-IsAt n h v)
      (find-rev_loop h.history seq (min n (capacity h)) (n - 1) (omega arith) (omega arith))

find-rev_loop_above : (rs : List PingResult) (q k s : ℕ) → s < q → find q (rev_loop rs k s) ≡ none
unfolding find rev_loop
find-rev_loop_above rs q zero s lt = refl
find-rev_loop_above rs q (suc k) s lt = ground (arith, find-rev_loop_above rs q k (s - 1))

find-rev_loop_unsent :
    (n c q : ℕ) (rs : List PingResult) → n ≤ q → find q (rev_loop rs (min n c) (n - 1)) ≡ none
find-rev_loop_unsent zero c q rs h =
    let e : min 0 c ≡ 0 = omega arith in rw e (unfold find rev_loop in refl)
find-rev_loop_unsent (suc n) c q rs h =
    find-rev_loop_above rs q (min (suc n) c) (suc n - 1) (omega arith)

-- Only the latest pings are listed, each with the entry of its place in the ring.
pub find_listed :
    (n q : ℕ) (h : PingHistory) (r : PingResult)
    → IsAt n h
    → find q (rev_results h) ≡ some r
    → (q < n) × (n ≤ q + capacity h) × (r ≡ entry h.history (q % capacity h))
find_listed n q h r v e = elim (dec_lt q n) [
  | no gt ↦
      let out = find-rev_loop_unsent n (capacity h) q h.history (omega arith) in
      absurd (cc (out, ap (find q) (rev_results-IsAt n h v)))
  | yes lt ↦ elim (dec_le n (q + capacity h)) [
    | yes live ↦ (lt, live, cc (find_live n q h v lt live))
    | no gone ↦
        let out = find-rev_loop-none h.history q (min n (capacity h)) (n - 1) (omega arith) in
        absurd (cc (out, ap (find q) (rev_results-IsAt n h v)))
  ]
]
