-- ===== src/Table/Latencies.antt =====
-- `renderLatencies`: the latest results of a pinger, the newest at the right.
use vasily.Base.{
  ℕ, ◌+◌, ◌-◌, ltb, get_elem?, none, some, ◌>>=◌, List, [], ◌∷◌, set, replicate, if◌then◌else◌,
  Result, ok, panic,
}
use vasily.Base.Int.{ℤ, pos, negsuc}
use vasily.History.{
  ResultType, waiting, success, dropped, duplicate, ttl_exceeded, unreachable, PingResult,
}

-- The part that a latency is of `graphMax`, and 1 at most, is floating point: `part n` is n times
-- that part cut to an int, `nearest n` is it rounded.
pub record Scale : Type 0 where
  pub part : ℕ → ℤ → ℤ
  pub nearest : ℕ → ℤ → ℤ

-- `xs[i]`
unfoldable pub element_at {ℓ} : {A : Type ℓ} → List A → ℤ → Result A
element_at xs (pos i) = elim (get_elem? xs i) [ none ↦ panic | some x ↦ ok x ]
element_at xs (negsuc i) = panic

-- The characters from "▁" to "█".
abbrev pub bars : List ℕ
bars = 9601 ∷ 9602 ∷ 9603 ∷ 9604 ∷ 9605 ∷ 9606 ∷ 9607 ∷ 9608 ∷ []

-- theme.go: the numbers of the colours.
abbrev pub ansi_gradient : List ℕ
ansi_gradient = 2 ∷ 3 ∷ 1 ∷ []

abbrev pub ansi256_gradient : List ℕ
ansi256_gradient = 119 ∷ 112 ∷ 148 ∷ 142 ∷ 136 ∷ 130 ∷ 124 ∷ []

-- A colour without its blend for terminals with more colours.
pub record Color : Type 0 where
  pub ansi : ℕ
  pub ansi256 : ℕ

-- A character of a status, or a bar in its colour.
pub data Cell : Type 0 where
  char : ℕ → Cell
  bar : ℕ → Color → Cell

-- `color`, which is the same at both ends of `Gradient.At`.
unfoldable pub color : Scale → ℤ → Result Color
unfolding element_at
color scale latency = do
  ansi ← element_at ansi_gradient (scale.nearest 2 latency)
  ansi256 ← element_at ansi256_gradient (scale.nearest 6 latency)
  ok (record { ansi = ansi; ansi256 = ansi256 })

unfoldable pub bar_for : Scale → ℤ → Result Cell
unfolding color element_at
bar_for scale latency = do
  c ← color scale latency
  b ← element_at bars (scale.part 7 latency)
  ok (bar b c)

-- `statuses`, of the characters " ", "?", "D", "T" and "X", in place of the bar.
unfoldable pub cell_for : ResultType → Cell → Cell
cell_for success c = c
cell_for waiting c = char 32
cell_for dropped c = char 63
cell_for duplicate c = char 68
cell_for ttl_exceeded c = char 84
cell_for unreachable c = char 88

-- The bar is made for every result.
unfoldable pub cell_of : Scale → PingResult → Result Cell
unfolding cell_for bar_for
cell_of scale r = do c ← bar_for scale r.latency; ok (cell_for r.result_type c)

-- The loop, with its `break`.
unfoldable pub render_loop : Scale → ℕ → ℕ → List PingResult → List Cell → Result (List Cell)
unfolding cell_of
render_loop scale width i [] chars = ok chars
render_loop scale width i (r ∷ rs) chars = do
  c ← cell_of scale r
  let rest = render_loop scale width (i + 1) rs (set chars (width - i - 1) c)
  if ltb i width then rest else ok chars

-- `Repeat` panics on a negative count.
unfoldable pub render_latencies : Scale → ℤ → List PingResult → Result (List Cell)
unfolding render_loop
render_latencies scale (pos width) rs = render_loop scale width 0 rs (replicate width (char 32))
render_latencies scale (negsuc n) rs = panic
