-- ===== src/History/Counts.antt =====
-- The running statistics.
use vasily.Base.{
  ℕ, suc, ◌+◌, ◌-◌, ◌*◌, ◌/◌, ◌^◌, ◌≤◌, ◌<◌, ◌≡◌, ◌⊎◌, inl, inr, refl, List, [], ◌∷◌, All, length,
  arith, if◌then◌else◌, Bool-cases,
}
use vasily.Base.Int.{ℤ, pos, pos-*ℤ, pos-+ℤ, wrap64-pos, quot-pos}
use native.Mathlib.Decide.{dec_le}
use native.Mathlib.Nat.{div-add-mod}
use vasily.History.{
  PingHistory, PingResult, Stats, is_success, new_history, add_stats_for, next_avg,
}

-- With no overflow the streaming average is the rounded mean of the old average, taken `s` times,
-- and the new latency.
next_avg_lem :
    (s a l : ℕ) → s * a + l < 2 ^ 63 → next_avg (suc s) (pos a) (pos l) ≡ pos ((s * a + l) / suc s)
unfolding next_avg
next_avg_lem s a l h =
    let e : suc s - 1 ≡ s = omega arith in
    rw (
      e,
      pos-*ℤ s a,
      wrap64-pos (s * a) (omega arith),
      pos-+ℤ (s * a) l,
      wrap64-pos (s * a + l) h,
      quot-pos (s * a + l) (suc s),
    )

-- The rounded mean of numbers between two bounds is between them.
mean_low : (s a l lo : ℕ) → (s ≡ 0) ⊎ (lo ≤ a) → lo ≤ l → lo ≤ (s * a + l) / suc s
mean_low s a l lo (inl e) r = rw e (omega arith)
mean_low s a l lo (inr p) r = elim (dec_le lo ((s * a + l) / suc s)) [
  | yes le ↦ le
  | no gt ↦ absurd (grind (arith, div-add-mod (s * a + l) (suc s)))
]

mean_high : (s a l hi : ℕ) → a ≤ hi → l ≤ hi → (s * a + l) / suc s ≤ hi
mean_high s a l hi p r = elim (dec_le ((s * a + l) / suc s) hi) [
  | yes le ↦ le
  | no gt ↦ absurd (grind (arith, div-add-mod (s * a + l) (suc s)))
]

-- A latency that was measured, from `lo` to `hi`.
abbrev pub IsBetween : ℕ → ℕ → PingResult → Type 0
IsBetween lo hi r = (l : ℕ) × (r.latency ≡ pos l) × (lo ≤ l) × (l ≤ hi)

abbrev pub failure_count : List PingResult → ℕ
failure_count [] = 0
failure_count (r ∷ rs) = (if is_success r.result_type then 0 else 1) + failure_count rs

-- The average of the successes among the results counted so far is between `lo` and `hi`.
record IsMean (lo hi : ℕ) (st : Stats) : Type 0 where
  some_failed : st.failures ≤ st.n
  avg : ℕ
  is_avg : st.avg_latency ≡ pos avg
  low : (st.n - st.failures ≡ 0) ⊎ (lo ≤ avg)
  high : avg ≤ hi

fits_below : (s a l n hi : ℕ) → s ≤ n → a ≤ hi → l ≤ hi → (n + 1) * hi < 2 ^ 63 → s * a + l < 2 ^ 63
fits_below s a l n hi hs ha hl h = grind arith

module _ (sqrt_ratio : ℤ → ℕ → ℤ) where
  add_stats-IsMean :
      (lo hi : ℕ) (h : PingHistory) (r : PingResult)
      → IsMean lo hi h.stats
      → IsBetween lo hi r
      → (h.stats.n + 1) * hi < 2 ^ 63
      → IsMean lo hi (add_stats_for sqrt_ratio h r).stats
  unfolding add_stats_for
  add_stats-IsMean lo hi h r m (l, e, p, q) fits = elim (Bool-cases (is_success r.result_type)) [
    | inl good ↦
        rw (good, add_stats_for)
          (record {
            some_failed = omega (arith, m.some_failed);
            avg = (s * m.avg + l) / suc s;
            is_avg = rw (m.is_avg, e, count) (next_avg_lem s m.avg l small);
            low = inr (mean_low s m.avg l lo m.low p);
            high = mean_high s m.avg l hi m.high q;
          })
    | inr bad ↦
        rw (bad, add_stats_for)
          (record {
            some_failed = omega (arith, m.some_failed);
            avg = m.avg;
            is_avg = m.is_avg;
            low = ground arith;
            high = m.high;
          })
  ]
    where
      s : ℕ
      s = h.stats.n - h.stats.failures

      count : h.stats.n + 1 - h.stats.failures ≡ suc s
      count = omega (arith, m.some_failed)

      small : s * m.avg + l < 2 ^ 63
      small = fits_below s m.avg l h.stats.n hi (omega arith) m.high q fits

  pub add_all : PingHistory → List PingResult → PingHistory
  add_all h [] = h
  add_all h (r ∷ rs) = add_all (add_stats_for sqrt_ratio h r) rs

  add_stats_counts :
      (h : PingHistory) (r : PingResult)
      → ((add_stats_for sqrt_ratio h r).stats.n ≡ h.stats.n + 1)
        × ((add_stats_for sqrt_ratio h r).stats.failures
            ≡ h.stats.failures + (if is_success r.result_type then 0 else 1))
  unfolding add_stats_for
  add_stats_counts h r = ground arith

  fits_later : (n k hi : ℕ) → (n + suc k) * hi < 2 ^ 63 → (n + 1) * hi < 2 ^ 63
  fits_later n k hi h = grind arith

  add_all-IsMean :
      (rs : List PingResult) (lo hi : ℕ) (h : PingHistory)
      → All (IsBetween lo hi) rs
      → (h.stats.n + length rs) * hi < 2 ^ 63
      → IsMean lo hi h.stats
      → IsMean lo hi (add_all h rs).stats
        × ((add_all h rs).stats.n ≡ h.stats.n + length rs)
        × ((add_all h rs).stats.failures ≡ h.stats.failures + failure_count rs)
  unfolding add_all
  add_all-IsMean [] lo hi h b fits m = (m, omega arith, omega arith)
  add_all-IsMean (r ∷ rs) lo hi h b fits m =
      let (n, f) = add_stats_counts h r in
      let (m', n', f') =
        add_all-IsMean rs lo hi (add_stats_for sqrt_ratio h r) b.1 (rw n (grind arith))
          (add_stats-IsMean lo hi h r m b.0 (fits_later h.stats.n (length rs) hi fits)) in
      (m', omega arith, omega arith)

  -- The statistics of a new history over a run of results. `N` is their number and `Failures` the
  -- number of those that are no success. If one was a success, all latencies are from `lo` to `hi`,
  -- and their number times `hi` is in the range of an int64, the average is from `lo` to `hi`.
  pub add_all_stats :
      (cap lo hi : ℕ) (rs : List PingResult)
      → All (IsBetween lo hi) rs
      → length rs * hi < 2 ^ 63
      → failure_count rs < length rs
      → let st = (add_all (new_history cap) rs).stats in
        (st.n ≡ length rs)
        × (st.failures ≡ failure_count rs)
        × ((avg : ℕ) × (st.avg_latency ≡ pos avg) × (lo ≤ avg) × (avg ≤ hi))
  unfolding new_history
  add_all_stats cap lo hi rs b fits some =
      let (m, n, f) = add_all-IsMean rs lo hi (new_history cap) b (grind arith) start in
      (omega arith, omega arith, (m.avg, m.is_avg, omega (arith, m.low), m.high))
    where
      start : IsMean lo hi (new_history cap).stats
      start = record {
        some_failed = omega arith;
        avg = 0;
        is_avg = refl;
        low = inl (omega arith);
        high = omega arith;
      }
