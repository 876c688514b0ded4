-- ===== src/History/Window.antt =====
-- The ring as the list of the latest results, newest first.
use vasily.Base.{
  ℕ, zero, suc, ◌+◌, ◌-◌, ◌/◌, ◌%◌, ◌≤◌, ◌<◌, min, ◌≡◌, refl, sym, ap, ap₂, ◌∙◌, ◌≢◌, inl, inr,
  Bool-cases, ◌==◌, ==_iff, if◌then◌else◌, none, List, [], ◌∷◌, length, length-set, set, take,
  get_elem?-set_self, get_elem?-set_ne, arith, ok, panic,
}
use vasily.Base.Int.{ℤ, pos, negsuc}
use native.Mathlib.Nat.{div-add-mod}
use native.Mathlib.Decide.{ℕ_discrete, dec_le}
use vasily.History.{PingResult, PingHistory, capacity, entry, add, rev_loop, rev_results, waiting}

-- The last sequence number when `n` pings have been added.
abbrev pub last_of : ℕ → ℤ
last_of zero = negsuc 0
last_of (suc k) = pos k

-- A history to which `n` pings have been added, with room for one at least.
pub record IsAt (n : ℕ) (h : PingHistory) : Type 0 where
  pub room : 0 < capacity h
  pub last : h.last_seq ≡ last_of n

-- Two numbers less than `m` apart have different remainders.
pub mod-ne : (a b m : ℕ) → a < b → b < a + m → a % m ≢ b % m
mod-ne a b m lt near e = elim (dec_le (b / m) (a / m)) [
  | yes p ↦ absurd (grind (arith, div-add-mod a m, div-add-mod b m))
  | no p ↦ absurd (grind (arith, div-add-mod a m, div-add-mod b m))
]

-- One entry of a list of numbered results replaced.
unfoldable pub put : ℕ → PingResult → List (ℕ × PingResult) → List (ℕ × PingResult)
put q v [] = []
put q v ((t, r) ∷ rs) = (t, if t == q then v else r) ∷ put q v rs

entry-set_self :
    (rs : List PingResult) (i : ℕ) (v : PingResult) → i < length rs → entry (set rs i v) i ≡ v
entry-set_self rs i v h = rw (get_elem?-set_self rs i v h, entry)

entry-set_ne :
    (rs : List PingResult) (i j : ℕ) (v : PingResult) → i ≢ j → entry (set rs i v) j ≡ entry rs j
entry-set_ne rs i j v h = rw (get_elem?-set_ne rs i j v h, entry)

pub entry-set_mod :
    (rs : List PingResult) (q s : ℕ) (v : PingResult)
    → 0 < length rs
    → s < q + length rs
    → q < s + length rs
    → entry (set rs (q % length rs) v) (s % length rs)
      ≡ (if s == q then v else entry rs (s % length rs))
entry-set_mod rs q s v room hs hq = elim (ℕ_discrete s q) [
  | yes e ↦ rw (e, (==_iff q q).1 refl) (entry-set_self rs (q % length rs) v (omega arith))
  | no ne ↦ elim (Bool-cases (s == q)) [
    | inl t ↦ absurd (ne ((==_iff s q).0 t))
    | inr f ↦ rw f (entry-set_ne rs (q % length rs) (s % length rs) v (apart ne))
  ]
]
  where
    apart : s ≢ q → q % length rs ≢ s % length rs
    apart ne e = elim (dec_le s q) [
      | yes le ↦ mod-ne s q (length rs) (omega arith) hq (sym e)
      | no gt ↦ mod-ne q s (length rs) (omega arith) hs e
    ]

-- A write at the place of `q` shows in the window as a write at `q` and nowhere else.
rev_loop-set :
    (rs : List PingResult) (q k s : ℕ) (v : PingResult)
    → 0 < length rs
    → k ≤ s + 1
    → s < q + length rs
    → q + k < s + 1 + length rs
    → rev_loop (set rs (q % length rs) v) k s ≡ put q v (rev_loop rs k s)
unfolding rev_loop put
rev_loop-set rs q zero s v p hk hs hq = refl
rev_loop-set rs q (suc k) s v p hk hs hq = rw length-set (
    ap₂ (λ r rest. (s, r) ∷ rest) (entry-set_mod rs q s v p hs (omega arith))
      (rev_loop-set rs q k (s - 1) v p (omega arith) (omega arith) (omega arith)))

put-rev_loop :
    (rs : List PingResult) (q k s : ℕ) (v : PingResult)
    → s < q
    → put q v (rev_loop rs k s) ≡ rev_loop rs k s
unfolding rev_loop put
put-rev_loop rs q zero s v h = refl
put-rev_loop rs q (suc k) s v h = ground (arith, put-rev_loop rs q k (s - 1) v)

take-rev_loop :
    (rs : List PingResult) (m k s : ℕ) → take m (rev_loop rs k s) ≡ rev_loop rs (min m k) s
unfolding rev_loop
take-rev_loop rs zero k s = let e : min 0 k ≡ 0 = omega arith in rw e
take-rev_loop rs (suc m) zero s = let e : min (suc m) 0 ≡ 0 = omega arith in rw e
take-rev_loop rs (suc m) (suc k) s =
    let e : min (suc m) (suc k) ≡ suc (min m k) = omega arith in
    rw (e, take-rev_loop rs m k (s - 1))

-- How many results there are to iterate over.
pub rev_results-IsAt :
    (n : ℕ) (h : PingHistory)
    → IsAt n h
    → rev_results h ≡ rev_loop h.history (min n (capacity h)) (n - 1)
unfolding rev_results rev_loop
rev_results-IsAt zero h v = let e : min 0 (capacity h) ≡ 0 = omega arith in rw (v.last, e)
rev_results-IsAt (suc k) h v =
    let e : k + 1 - (k + 1 - capacity h) ≡ min (suc k) (capacity h) = omega arith in
    let d : suc k - 1 ≡ k = omega arith in rw (v.last, e, d)

abbrev pub fresh_result : ℕ → PingResult
fresh_result now = record { result_type = waiting; time = now; latency = pos 0; peer = none }

abbrev pub added : PingHistory → ℕ → ℕ → PingHistory
added h n now = record h {
  history = set h.history (n % capacity h) (fresh_result now);
  last_seq = pos n;
}

pub add_next :
    (n : ℕ) (h : PingHistory) (now : ℕ) → IsAt n h → add h (pos n) now ≡ ok (added h n now)
unfolding add
add_next zero h now v = ground arith
add_next (suc k) h now v = ground arith

-- `Add` panics on every number but the next one.
pub add_out_of_order :
    (n : ℕ) (h : PingHistory) (seq : ℤ) (now : ℕ) → IsAt n h → seq ≢ pos n → add h seq now ≡ panic
unfolding add
add_out_of_order zero h (pos m) now v ne = ground (arith, of_number m)
  where
    of_number : (m : ℕ) → m ≡ 0 → pos m ≡ pos 0
    of_number m e = ap pos e
add_out_of_order zero h (negsuc k) now v ne = ground arith
add_out_of_order (suc n) h (pos m) now v ne = ground arith
add_out_of_order (suc n) h (negsuc k) now v ne = ground arith

pub added-IsAt : (n : ℕ) (h : PingHistory) (now : ℕ) → IsAt n h → IsAt (suc n) (added h n now)
added-IsAt n h now v = record { room = rw length-set v.room; last = refl }

put_newest :
    (n c : ℕ) (rs : List PingResult) (v : PingResult)
    → put n v (rev_loop rs (suc (min n c)) n) ≡ (n, v) ∷ rev_loop rs (min c (min n (suc c))) (n - 1)
unfolding put rev_loop
put_newest zero c rs v =
    let e : min 0 c ≡ 0 = omega arith in
    let e' : min c (min 0 (suc c)) ≡ 0 = omega arith in rw (e, e')
put_newest (suc n) c rs v =
    let e : min c (min (suc n) (suc c)) ≡ min (suc n) c = omega arith in
    rw (
      e,
      (==_iff (suc n) (suc n)).1 refl,
      put-rev_loop rs (suc n) (min (suc n) c) (suc n - 1) v (omega arith),
    )

window_add :
    (n c : ℕ) (rs : List PingResult) (v : PingResult)
    → length rs ≡ suc c
    → rev_loop (set rs (n % length rs) v) (min (suc n) (length rs)) n
      ≡ take (length rs) ((n, v) ∷ rev_loop rs (min n (length rs)) (n - 1))
window_add n c rs v e =
    rev_loop-set rs n (min (suc n) (length rs)) n v (omega arith) (omega arith) (omega arith)
      (omega arith)
    ∙ let top : min (suc n) (length rs) ≡ suc (min n c) = omega arith in
      rw (top, e, take-rev_loop) (put_newest n c rs v)

-- `Add` of the next number puts one waiting result, sent now, before the results that `RevResults`
-- gave, and drops the oldest ones over the capacity.
pub rev_results-add :
    (n : ℕ) (h : PingHistory) (now : ℕ)
    → IsAt n h
    → (h' : PingHistory) × (add h (pos n) now ≡ ok h')
      × IsAt (suc n) h'
      × (rev_results h' ≡ take (capacity h) ((n, fresh_result now) ∷ rev_results h))
rev_results-add n h now v = (added h n now, add_next n h now v, added-IsAt n h now v, window)
  where
    window : rev_results (added h n now) ≡ take (capacity h) ((n, fresh_result now) ∷ rev_results h)
    window =
        let e : suc n - 1 ≡ n = omega arith in
        rev_results-IsAt (suc n) (added h n now) (added-IsAt n h now v)
        ∙ rw (length-set, rev_results-IsAt n h v, e)
            (window_add n (capacity h - 1) h.history (fresh_result now) (omega (arith, v.room)))

abbrev pub rewritten : PingHistory → ℕ → PingResult → PingHistory
rewritten h seq r = record h { history = set h.history (seq % capacity h) r }

-- A write to a ping that is still in the window changes that result alone.
pub rev_results-rewritten :
    (n seq : ℕ) (h : PingHistory) (r : PingResult)
    → IsAt n h
    → seq < n
    → n ≤ seq + capacity h
    → rev_results (rewritten h seq r) ≡ put seq r (rev_results h)
rev_results-rewritten n seq h r v sent live =
    rev_results-IsAt n (rewritten h seq r) (record { room = rw length-set v.room; last = v.last })
    ∙ rw (length-set, rev_results-IsAt n h v)
        (rev_loop-set h.history seq (min n (capacity h)) (n - 1) r v.room (omega arith)
          (omega arith) (omega arith))
