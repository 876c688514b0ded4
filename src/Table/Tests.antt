-- ===== src/Table/Tests.antt =====
-- A row in front of another, and the cells of a narrow column.
use vasily.Base.{
  ℕ, ◌+◌, ◌*◌, ◌/◌, ◌<◌, All, map, if◌then◌else◌, Bool, none, length, take, true, false, List, [],
  ◌∷◌, ◌≡◌, ok, refl, arith,
}
use vasily.Base.Int.{ℤ, pos, negsuc}
use vasily.Backend.{Bytes}
use vasily.Sortselect.{SortColumn}
use vasily.Table.{Comparison, same, Row, cmp_rows}
use vasily.Table.Orders.{IsOrder}
use vasily.Table.Rows.{row_order, cmp_rows-IsOrder}
use vasily.Table.Latencies.{Scale, Cell, render_latencies}
use vasily.Table.Pictures.{IsScale, IsMeasured, AreCells, picture, render_latencies-picture}
use vasily.Table.Layout.{Printing, Drawn, Block, recalc_column_widths, header_view, render_row}
use vasily.Table.Columns.{IsNearest, IsFull, span, render_row-header_view}
use vasily.Table.Sizes.{
  SizeMsg, window_size, key_msg, new_sizes, header_part, viewport_part, help_part, update_all, view,
}
use vasily.Table.Screen.{update_all-view}
use native.Mathlib.Nat.{div-add-mod, mod-lt}
use vasily.History.{PingResult, success, dropped}

-- Floats of one value.
abbrev compare_equal : Unit {0} → Unit {0} → Comparison
compare_equal a b = same

compare_equal-IsOrder : IsOrder compare_equal
compare_equal-IsOrder = record {
  swaps = λ a b. refl;
  alike = λ a b c e. refl;
  trans = λ a b c p q. p;
}

abbrev near : Row (Unit {0})
near = record {
  index = pos 1;
  display_host = 97 ∷ [];
  avg_latency = pos 20;
  std_dev = pos 3;
  pct_loss = tt;
}

abbrev far : Row (Unit {0})
far = record near { index = pos 2 }

abbrev by_latency : List SortColumn
by_latency =
    record { column_id = 3; reverse = true } ∷ record { column_id = 0; reverse = false } ∷ []

cmp_rows-IsOrder_example :
    (cmp_rows compare_equal by_latency near far ≡ ok (row_order compare_equal by_latency near far))
    × IsOrder (row_order compare_equal by_latency)
cmp_rows-IsOrder_example =
    cmp_rows-IsOrder compare_equal by_latency near far compare_equal-IsOrder (tt, (tt, tt))

-- "Host"
abbrev title : Bytes
title = 72 ∷ 111 ∷ 115 ∷ 116 ∷ []

-- A lost ping after an answered one, in three cells: a space, the bar and the question mark.
abbrev answered : PingResult
answered = record { result_type = success; time = 0; latency = pos 20; peer = none }

abbrev two_results : List PingResult
two_results = record answered { result_type = dropped } ∷ answered ∷ []

-- The lowest bar and the first colour.
abbrev flat : Scale
flat = record { part = λ n l. pos 0; nearest = λ n l. pos 0 }

flat-IsScale : IsScale flat
flat-IsScale n l = (0, 0, refl, omega arith, refl, omega arith)

two_results-IsMeasured : All IsMeasured two_results
two_results-IsMeasured = (omega arith, (omega arith, tt))

render_latencies-picture_example :
    (cs : List Cell) × AreCells flat (take 3 two_results) cs
    × (render_latencies flat (pos 3) two_results ≡ ok (picture 3 cs))
    × (length (picture 3 cs) ≡ 3)
render_latencies-picture_example =
    render_latencies-picture flat 3 two_results flat-IsScale two_results-IsMeasured

-- Rounding half up.
abbrev half_up : ℕ → ℕ → ℤ → ℤ
half_up p t (pos a) = pos ((2 * (p * a) + t) / (2 * t))
half_up p t (negsuc a) = pos 0

two_times : (t : ℕ) → 0 < t → 0 < 2 * t
two_times t l = omega arith

half_up-IsNearest : IsNearest half_up
half_up-IsNearest p t a l =
    let n = (2 * (p * a) + t) / (2 * t) in
    let whole = div-add-mod (2 * (p * a) + t) (2 * t) in
    let part = mod-lt (2 * (p * a) + t) (two_times t l) in
    let twice : 2 * t * n ≡ 2 * (t * n) = grind arith in
    (n, refl, omega (arith, whole, part, twice), omega (arith, whole, part, twice))

-- Every number is printed as "7".
abbrev sevens : Printing (Unit {0})
sevens = record {
  scale = flat;
  itoa = λ i. 55 ∷ [];
  milliseconds = λ d. 55 ∷ [];
  percentage = λ f. 55 ∷ [];
}

abbrev drawn : Drawn (Unit {0})
drawn = record { row = near; results = two_results }

render_row-header_view_example :
    (hs : List Block) × (bs : List Block) × (header_view (recalc_column_widths half_up (pos 80))
      ≡ ok hs)
    × (render_row sevens drawn (recalc_column_widths half_up (pos 80)) ≡ ok bs)
    × All IsFull hs
    × All IsFull bs
    × (map (λ (b : Block). b.style_width) hs ≡ map (λ (b : Block). b.style_width) bs)
    × (span hs ≡ 80)
render_row-header_view_example =
    render_row-header_view sevens half_up 80 drawn
      ((λ i. omega arith), (λ d. omega arith), (λ f. omega arith)) flat-IsScale half_up-IsNearest
      (omega arith) two_results-IsMeasured (omega arith)

-- The full help takes four lines, the short one takes one.
abbrev help_lines : Bool → ℤ → ℤ
help_lines full width = if full then pos 4 else pos 1

abbrev key_pressed : List SizeMsg
key_pressed = window_size (pos 80) (pos 24) ∷ key_msg true ∷ []

update_all-view_example :
    (hs : List Block) × (n : ℕ) × (view (update_all half_up help_lines key_pressed new_sizes)
      ≡ ok (header_part hs ∷ viewport_part (pos 80) (pos n) ∷ help_part true (pos 80) ∷ []))
    × All IsFull hs
    × (span hs ≡ 80)
    × (1 + n + 4 ≡ 24)
update_all-view_example =
    update_all-view half_up help_lines key_pressed 80 24 4 half_up-IsNearest refl refl (omega arith)
      (omega arith)
