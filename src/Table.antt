-- ===== src/Table.antt =====
-- internal/tui/table/table.go: the order of the rows, and the padding of their cells.
pub mod Orders
pub mod Rows
pub mod Cells
pub mod Latencies
pub mod Pictures
pub mod Layout
pub mod Columns
pub mod Sizes
pub mod Screen
mod Tests
use vasily.Base.{
  ℕ, zero, suc, ◌+◌, ◌-◌, ◌==◌, ltb, leb, Bool, true, false, not, Option, none, some, List, [], ◌∷◌,
  ◌++◌, length, take, replicate, if◌then◌else◌, Result, ok, panic, ◌>>=◌,
}
use vasily.Base.Int.{ℤ, pos, negsuc, ltb_ℤ, eqb_ℤ, ◌-ℤ◌}
use vasily.Backend.{Bytes}
use vasily.Sortselect.{SortColumn}

-- The result of `cmp.Compare`: -1, 0 or 1.
pub data Comparison : Type 0 where
  less same more : Comparison

-- `-res`
abbrev pub negate : Comparison → Comparison
negate less = more
negate same = same
negate more = less

-- `cmp.Compare` on ints and durations, and on strings byte by byte.
unfoldable pub compare_ints : ℤ → ℤ → Comparison
compare_ints a b = if ltb_ℤ a b then less else if ltb_ℤ b a then more else same

-- The first result that is not 0.
abbrev pub then_by : Comparison → Comparison → Comparison
then_by less next = less
then_by same next = next
then_by more next = more

unfoldable pub compare_strings : Bytes → Bytes → Comparison
unfolding compare_ints
compare_strings [] [] = same
compare_strings [] (y ∷ ys) = less
compare_strings (x ∷ xs) [] = more
compare_strings (x ∷ xs) (y ∷ ys) = then_by (compare_ints (pos x) (pos y)) (compare_strings xs ys)

-- A row with the statistics of its pinger at the time of the sort. Floats are a parameter.
pub record Row (F : Type 0) : Type 0 where
  pub index : ℤ
  pub display_host : Bytes
  pub avg_latency : ℤ
  pub std_dev : ℤ
  pub pct_loss : F

-- The dynamic types of the sort keys; a key that is not in the map is nil.
pub data Key (F : Type 0) : Type 0 where
  int_key : ℤ → Key F
  string_key : Bytes → Key F
  duration_key : ℤ → Key F
  float_key : F → Key F
  nil_key : Key F

-- `sortKeys` at a column: index, host, results, average, jitter, loss.
unfoldable pub sort_key : {F : Type 0} → Row F → ℕ → Key F
sort_key r zero = int_key r.index
sort_key r (suc zero) = string_key r.display_host
sort_key r (suc (suc zero)) = nil_key
sort_key r (suc (suc (suc zero))) = duration_key r.avg_latency
sort_key r (suc (suc (suc (suc zero)))) = duration_key r.std_dev
sort_key r (suc (suc (suc (suc (suc zero))))) = float_key r.pct_loss
sort_key r (suc (suc (suc (suc (suc (suc n)))))) = nil_key

abbrev pub avail_columns : List ℕ
avail_columns = 0 ∷ 1 ∷ 3 ∷ 4 ∷ 5 ∷ []

abbrev pub reversed : Bool → Comparison → Comparison
reversed true c = negate c
reversed false c = c

module _ {F : Type 0} (compare_floats : F → F → Comparison) where
  -- `cmpKey` without its deferred call: the assertion on the second key panics on another type.
  unfoldable pub cmp_values : Key F → Key F → Result Comparison
  unfolding compare_ints compare_strings
  cmp_values (int_key a) (int_key b) = ok (compare_ints a b)
  cmp_values (string_key a) (string_key b) = ok (compare_strings a b)
  cmp_values (duration_key a) (duration_key b) = ok (compare_ints a b)
  cmp_values (float_key a) (float_key b) = ok (compare_floats a b)
  cmp_values _ _ = panic

  unfoldable pub cmp_key : Key F → Key F → Bool → Result Comparison
  unfolding cmp_values
  cmp_key a b reverse = do res ← cmp_values a b; ok (reversed reverse res)

  -- The next column counts only when this one does not tell the rows apart.
  unfoldable pub or_next : Comparison → Result Comparison → Result Comparison
  or_next less next = ok less
  or_next same next = next
  or_next more next = ok more

  unfoldable pub cmp_rows : List SortColumn → Row F → Row F → Result Comparison
  unfolding cmp_key sort_key or_next
  cmp_rows [] a b = ok same
  cmp_rows (col ∷ cols) a b = do
    res ← cmp_key (sort_key a col.column_id) (sort_key b col.column_id) col.reverse
    or_next res (cmp_rows cols a b)

abbrev pub default_sort : List SortColumn
default_sort =
    record { column_id = 0; reverse = false } ∷ record { column_id = 1; reverse = false } ∷ []

-- `SetSort`
abbrev pub set_sort : List SortColumn → List SortColumn
set_sort [] = default_sort
set_sort (col ∷ cols) = col ∷ cols

-- The numbers that `UpdateRows` shows: 0, for an empty cell, below a row with the same index.
unfoldable pub collapse_below : ℤ → List ℤ → List ℤ
collapse_below prev [] = []
collapse_below prev (i ∷ is) =
    let shown = if eqb_ℤ i prev then pos 0 else i in shown ∷ collapse_below i is

unfoldable pub collapse : List ℤ → List ℤ
unfolding collapse_below
collapse [] = []
collapse (i ∷ is) = i ∷ collapse_below i is

-- The bytes of "…".
abbrev pub ellipsis : Bytes
ellipsis = 226 ∷ 128 ∷ 166 ∷ []

-- `s[:i]`, which panics on a negative bound and past the end.
abbrev pub prefix : Bytes → ℤ → Result Bytes
prefix s (pos i) = if leb i (length s) then ok (take i s) else panic
prefix s (negsuc i) = panic

abbrev pub spaces : ℕ → Bytes
spaces n = replicate n 32

abbrev pub cut : ℤ → Bytes → Result Bytes
cut i s = do t ← prefix s (i -ℤ pos 1); ok (t ++ ellipsis)

-- `lpad` and `rpad`, by the difference `n` between the width and the length.
unfoldable pub lpad_by : ℤ → ℤ → Bytes → Result Bytes
unfolding ◌-ℤ◌
lpad_by i (pos n) s = ok (spaces n ++ s)
lpad_by i (negsuc n) s = cut i s

unfoldable pub rpad_by : ℤ → ℤ → Bytes → Result Bytes
unfolding ◌-ℤ◌
rpad_by i (pos n) s = ok (s ++ spaces n)
rpad_by i (negsuc n) s = cut i s

unfoldable pub lpad : ℤ → Bytes → Result Bytes
unfolding lpad_by
lpad i s = lpad_by i (i -ℤ pos (length s)) s

unfoldable pub rpad : ℤ → Bytes → Result Bytes
unfolding rpad_by
rpad i s = rpad_by i (i -ℤ pos (length s)) s
