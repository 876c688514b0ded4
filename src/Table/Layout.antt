-- ===== src/Table/Layout.antt =====
-- internal/tui/table/table.go: the widths of the columns, and what is drawn in them. A style is
-- applied to a text by lipgloss; it is kept with the width that it is given.
use vasily.Base.{
  ℕ, zero, suc, ◌+◌, ◌==◌, Bool, ◌&&◌, List, [], ◌∷◌, map, if◌then◌else◌, Result, ok, panic, ◌>>=◌,
}
use vasily.Base.Int.{ℤ, pos, ◌+ℤ◌, ◌-ℤ◌, ◌*ℤ◌, eqb_ℤ}
use vasily.Backend.{Bytes}
use vasily.History.{PingResult}
use vasily.Table.{Row, rpad, lpad}
use vasily.Table.Latencies.{Scale, Cell, render_latencies}

-- The proportional widths are whole numbers.
pub record ColumnSpec : Type 0 where
  pub column_id : ℕ
  pub title : Bytes
  pub fixed_width : ℤ
  pub proportional_width : ℕ

abbrev pub fixed : ℕ → Bytes → ℕ → ColumnSpec
fixed id title width = record {
  column_id = id;
  title = title;
  fixed_width = pos width;
  proportional_width = 0;
}

abbrev pub proportional : ℕ → Bytes → ℕ → ColumnSpec
proportional id title share = record {
  column_id = id;
  title = title;
  fixed_width = pos 0;
  proportional_width = share;
}

-- "Hop", "Host", "Results", "AvgMs", "Jitter" and " Loss".
abbrev pub column_specs : List ColumnSpec
column_specs =
    fixed 0 (72 ∷ 111 ∷ 112 ∷ []) 3
    ∷ proportional 1 (72 ∷ 111 ∷ 115 ∷ 116 ∷ []) 2
    ∷ proportional 2 (82 ∷ 101 ∷ 115 ∷ 117 ∷ 108 ∷ 116 ∷ 115 ∷ []) 3
    ∷ fixed 3 (65 ∷ 118 ∷ 103 ∷ 77 ∷ 115 ∷ []) 5
    ∷ fixed 4 (74 ∷ 105 ∷ 116 ∷ 116 ∷ 101 ∷ 114 ∷ []) 6
    ∷ fixed 5 (32 ∷ 76 ∷ 111 ∷ 115 ∷ 115 ∷ []) 5
    ∷ []

abbrev pub horizontal_padding : ℤ
horizontal_padding = pos 1

-- `GetHorizontalPadding` of the styles of cells: `horizontalPadding` on the left and on the right.
abbrev pub cell_padding : ℤ
cell_padding = pos 2

abbrev pub is_proportional : ColumnSpec → Bool
is_proportional c = eqb_ℤ c.fixed_width (pos 0)

unfoldable pub fixed_total : List ColumnSpec → ℤ
unfolding ◌+ℤ◌
fixed_total [] = pos 0
fixed_total (c ∷ cs) =
    let rest = fixed_total cs in
    cell_padding +ℤ (if is_proportional c then rest else c.fixed_width +ℤ rest)

unfoldable pub proportional_total : List ColumnSpec → ℕ
proportional_total [] = 0
proportional_total (c ∷ cs) =
    let rest = proportional_total cs in
    if is_proportional c then c.proportional_width + rest else rest

-- `share p t a` is the rounded part p / t of the available width `a`, which is floating point.
abbrev pub column_width : (ℕ → ℕ → ℤ → ℤ) → ℕ → ℤ → ColumnSpec → ℤ
column_width share total avail c =
    if is_proportional c then share c.proportional_width total avail else c.fixed_width

unfoldable pub recalc_column_widths : (ℕ → ℕ → ℤ → ℤ) → ℤ → List ℤ
unfolding fixed_total proportional_total ◌-ℤ◌
recalc_column_widths share width =
    map (column_width share (proportional_total column_specs) (width -ℤ fixed_total column_specs))
      column_specs

-- The values of the map that `Row.cells` makes; a column that it does not have is nil.
pub data Value (F : Type 0) : Type 0 where
  string_value : Bytes → Value F
  duration_value int_value : ℤ → Value F
  float_value : F → Value F
  pinger_value : List PingResult → Value F
  nil_value : Value F

-- A row, with the results that its pinger lists.
pub record Drawn (F : Type 0) : Type 0 where
  pub row : Row F
  pub results : List PingResult

unfoldable pub row_cells : {F : Type 0} → Drawn F → ℕ → Value F
row_cells d zero = int_value d.row.index
row_cells d (suc zero) = string_value d.row.display_host
row_cells d (suc (suc zero)) = pinger_value d.results
row_cells d (suc (suc (suc zero))) = duration_value d.row.avg_latency
row_cells d (suc (suc (suc (suc zero)))) = duration_value d.row.std_dev
row_cells d (suc (suc (suc (suc (suc zero))))) = float_value d.row.pct_loss
row_cells d (suc (suc (suc (suc (suc (suc n)))))) = nil_value

-- What a style is rendered on: a text, or the cells of `renderLatencies`.
pub data Content : Type 0 where
  text : Bytes → Content
  picture_of : List Cell → Content

pub record Block : Type 0 where
  pub style_width : ℤ
  pub content : Content

-- How package strconv and package fmt print ints, the milliseconds of durations, and percentages, and
-- the arithmetic on parts that the bars are chosen by.
pub record Printing (F : Type 0) : Type 0 where
  pub itoa : ℤ → Bytes
  pub milliseconds : ℤ → Bytes
  pub percentage : F → Bytes
  pub scale : Scale

unfoldable pub header_block : ColumnSpec → ℤ → Result Block
unfolding ◌+ℤ◌ ◌*ℤ◌
header_block c width = do
  s ← rpad width c.title
  ok (record { style_width = width +ℤ pos 2 *ℤ horizontal_padding; content = text s })

-- An index past the end of `colWidths` panics.
unfoldable pub header_blocks : List ColumnSpec → List ℤ → Result (List Block)
unfolding header_block
header_blocks [] widths = ok []
header_blocks (c ∷ cs) [] = panic
header_blocks (c ∷ cs) (w ∷ ws) = do b ← header_block c w; bs ← header_blocks cs ws; ok (b ∷ bs)

-- `headerView`
unfoldable pub header_view : List ℤ → Result (List Block)
unfolding header_blocks
header_view widths = header_blocks column_specs widths

module _ {F : Type 0} (print : Printing F) where
  unfoldable pub cell_content : Value F → ℤ → Result Content
  cell_content (string_value s) width = do s ← rpad width s; ok (text s)
  cell_content (duration_value d) width = do s ← lpad width (print.milliseconds d); ok (text s)
  cell_content (int_value i) width = do s ← lpad width (print.itoa i); ok (text s)
  cell_content (float_value f) width = do s ← lpad width (print.percentage f); ok (text s)
  cell_content (pinger_value rs) width = do
    cs ← render_latencies print.scale width rs
    ok (picture_of cs)
  cell_content nil_value width = ok (text [])

  unfoldable pub render_cell : Value F → ℤ → Result Block
  unfolding cell_content ◌+ℤ◌
  render_cell v width = do
    s ← cell_content v width
    ok (record { style_width = width +ℤ cell_padding; content = s })

  -- An index of 0 leaves its cell empty.
  unfoldable pub value_at : Drawn F → ColumnSpec → Value F
  unfolding row_cells
  value_at d c =
      if (c.column_id == 0) && eqb_ℤ d.row.index (pos 0)
      then string_value []
      else row_cells d c.column_id

  unfoldable pub render_cells : Drawn F → List ColumnSpec → List ℤ → Result (List Block)
  unfolding render_cell value_at
  render_cells d [] widths = ok []
  render_cells d (c ∷ cs) [] = panic
  render_cells d (c ∷ cs) (w ∷ ws) = do
    b ← render_cell (value_at d c) w
    bs ← render_cells d cs ws
    ok (b ∷ bs)

  -- `renderRow`
  unfoldable pub render_row : Drawn F → List ℤ → Result (List Block)
  unfolding render_cells
  render_row d widths = render_cells d column_specs widths
