-- ===== src/Table/Columns.antt =====
-- internal/tui/table/table.go: the columns of a terminal that is wide enough for them.
use vasily.Base.{
  ℕ, ◌+◌, ◌-◌, ◌*◌, ◌≤◌, ◌<◌, ◌==◌, Bool, true, false, ◌&&◌, List, [], ◌∷◌, map, length, All,
  if◌then◌else◌, Result, ok, ◌≡◌, refl, sym, ap, ap₂, ◌∙◌, arith, ◌>>=◌,
}
use vasily.Base.Int.{ℤ, pos, pos_part, pos-*ℤ, pos-+ℤ, ◌+ℤ◌, ◌-ℤ◌, eqb_ℤ}
use vasily.Backend.{Bytes}
use vasily.Table.{rpad}
use vasily.Table.Cells.{cells, IsAscii, Shown, fits, crashes, rpad-Shown}
use vasily.Table.Pictures.{IsScale, IsMeasured, picture, render_latencies-picture}
use vasily.Table.Layout.{
  ColumnSpec, column_specs, recalc_column_widths, fixed_total, proportional_total, Value,
  string_value, duration_value, int_value, float_value, pinger_value, nil_value, row_cells, Drawn,
  Content, text, picture_of, Block, Printing, header_block, header_blocks, header_view,
  cell_content, render_cell, value_at, render_cells, render_row,
}

-- The integer next to a p / t; what the rounding does half way is left open.
abbrev pub IsNearest : (ℕ → ℕ → ℤ → ℤ) → Type 0
IsNearest share =
    (p t a : ℕ)
    → 0 < t
    → (n : ℕ) × (share p t (pos a) ≡ pos n)
      × (2 * (t * n) ≤ 2 * (p * a) + t)
      × (2 * (p * a) ≤ 2 * (t * n) + t)

abbrev pub PrintsAscii : {F : Type 0} → Printing F → Type 0
PrintsAscii {F} print =
    ((i : ℤ) → All IsAscii (print.itoa i))
    × ((d : ℤ) → All IsAscii (print.milliseconds d))
    × ((f : F) → All IsAscii (print.percentage f))

-- The cells that a content takes on the terminal.
abbrev pub cells_of : Content → ℕ
cells_of (text s) = cells s
cells_of (picture_of cs) = length cs

-- A content that fills its style to the padding.
abbrev pub IsFull : Block → Type 0
IsFull b = b.style_width ≡ pos (cells_of b.content + 2)

abbrev pub span : List Block → ℕ
span [] = 0
span (b ∷ bs) = cells_of b.content + 2 + span bs

of_Shown :
    (w : ℕ) (r : Result Bytes) → 1 ≤ w → Shown (pos w) r → (t : Bytes) × (r ≡ ok t) × (cells t ≡ w)
of_Shown w r l (fits v t i q c) = (t, q, c ∙ sym (ap pos_part i))
of_Shown w r l (crashes n q) = absurd (omega (arith, n, l))

abbrev Fills : Block → ℕ → Type 0
Fills b w = (b.style_width ≡ pos (w + 2)) × (cells_of b.content ≡ w)

abbrev FillAll : List Block → List ℕ → Type 0
FillAll [] [] = Unit {0}
FillAll (b ∷ bs) (w ∷ ws) = Fills b w × FillAll bs ws
FillAll _ _ = ⊥

abbrev sum_padded : List ℕ → ℕ
sum_padded [] = 0
sum_padded (w ∷ ws) = w + 2 + sum_padded ws

abbrev style_widths : List ℕ → List ℤ
style_widths ws = map (λ w. pos (w + 2)) ws

FillAll-IsFull : (bs : List Block) (ws : List ℕ) → FillAll bs ws → All IsFull bs
FillAll-IsFull [] [] h = tt
FillAll-IsFull (b ∷ bs) (w ∷ ws) ((s, c), h) =
    (s ∙ ap (λ n. pos (n + 2)) (sym c), FillAll-IsFull bs ws h)
FillAll-IsFull [] (w ∷ ws) h = absurd h
FillAll-IsFull (b ∷ bs) [] h = absurd h

FillAll-widths :
    (bs : List Block) (ws : List ℕ)
    → FillAll bs ws
    → (map (λ (b : Block). b.style_width) bs ≡ style_widths ws) × (span bs ≡ sum_padded ws)
FillAll-widths [] [] h = (refl, refl)
FillAll-widths (b ∷ bs) (w ∷ ws) ((s, c), h) =
    let (i, j) = FillAll-widths bs ws h in (ap₂ (λ x xs. x ∷ xs) s i, omega (arith, c, j))
FillAll-widths [] (w ∷ ws) h = absurd h
FillAll-widths (b ∷ bs) [] h = absurd h

header-Fills :
    (c : ColumnSpec) (w : ℕ)
    → 1 ≤ w
    → All IsAscii c.title
    → (b : Block) × (header_block c (pos w) ≡ ok b) × Fills b w
unfolding header_block
header-Fills c w l h =
    let (t, e, n) = of_Shown w (rpad (pos w) c.title) l (rpad-Shown (pos w) c.title h).0 in
    (
      record { style_width = pos (w + 2); content = text t },
      rw e (
          ap (λ z. ok (record { style_width = z; content = text t }))
            (ap (λ z. pos w +ℤ z) (pos-*ℤ 2 1) ∙ pos-+ℤ w 2)),
      (refl, n),
    )

abbrev HasAsciiTitle : ColumnSpec → Type 0
HasAsciiTitle c = All IsAscii c.title

headers-FillAll :
    (cs : List ColumnSpec) (ws : List ℕ)
    → length cs ≡ length ws
    → All (λ w. 1 ≤ w) ws
    → All HasAsciiTitle cs
    → (bs : List Block) × (header_blocks cs (map pos ws) ≡ ok bs) × FillAll bs ws
unfolding header_blocks
headers-FillAll [] [] e l h = ([], refl, tt)
headers-FillAll (c ∷ cs) (w ∷ ws) e l h =
    let (b, q, f) = header-Fills c w l.0 h.0 in
    let (bs, r, g) = headers-FillAll cs ws (omega (arith, e)) l.1 h.1 in
    (b ∷ bs, simp (q, r) refl, (f, g))
headers-FillAll [] (w ∷ ws) e l h = absurd (omega (arith, e))
headers-FillAll (c ∷ cs) [] e l h = absurd (omega (arith, e))

module _ {F : Type 0} (print : Printing F) (ascii : PrintsAscii print)
    (parts : IsScale print.scale) where
  -- A value whose text is plain, or whose bars there are.
  abbrev IsPlain : Value F → Type 0
  IsPlain (string_value s) = All IsAscii s
  IsPlain (pinger_value rs) = All IsMeasured rs
  IsPlain nil_value = ⊥
  IsPlain _ = Unit {0}

  text_of :
      (w : ℕ) (r : Result Bytes)
      → 1 ≤ w
      → Shown (pos w) r
      → (c : Content) × ((do s ← r; ok (text s)) ≡ ok c) × (cells_of c ≡ w)
  text_of w r l h = let (t, e, n) = of_Shown w r l h in (text t, rw e refl, n)

  content-fills :
      (v : Value F) (w : ℕ)
      → 1 ≤ w
      → IsPlain v
      → (c : Content) × (cell_content print v (pos w) ≡ ok c) × (cells_of c ≡ w)
  unfolding cell_content
  content-fills (string_value s) w l h = text_of w _ l (rpad-Shown (pos w) s h).0
  content-fills (duration_value d) w l h = text_of w _ l (rpad-Shown (pos w) _ (ascii.1 d)).1
  content-fills (int_value i) w l h = text_of w _ l (rpad-Shown (pos w) _ (ascii.0 i)).1
  content-fills (float_value f) w l h = text_of w _ l (rpad-Shown (pos w) _ (ascii.2 f)).1
  content-fills (pinger_value rs) w l h =
      let (cs, k, e, n) = render_latencies-picture print.scale w rs parts h in
      (picture_of (picture w cs), rw e refl, n)
  content-fills nil_value w l h = absurd h

  cell-Fills :
      (v : Value F) (w : ℕ)
      → 1 ≤ w
      → IsPlain v
      → (b : Block) × (render_cell print v (pos w) ≡ ok b) × Fills b w
  unfolding render_cell
  cell-Fills v w l h =
      let (c, e, n) = content-fills v w l h in
      (record { style_width = pos (w + 2); content = c }, rw (e, pos-+ℤ w 2) refl, (refl, n))

  cells-FillAll :
      (d : Drawn F) (cs : List ColumnSpec) (ws : List ℕ)
      → length cs ≡ length ws
      → All (λ w. 1 ≤ w) ws
      → All (λ c. IsPlain (value_at print d c)) cs
      → (bs : List Block) × (render_cells print d cs (map pos ws) ≡ ok bs) × FillAll bs ws
  unfolding render_cells
  cells-FillAll d [] [] e l h = ([], refl, tt)
  cells-FillAll d (c ∷ cs) (w ∷ ws) e l h =
      let (b, q, f) = cell-Fills (value_at print d c) w l.0 h.0 in
      let (bs, r, g) = cells-FillAll d cs ws (omega (arith, e)) l.1 h.1 in
      (b ∷ bs, simp (q, r) refl, (f, g))
  cells-FillAll d [] (w ∷ ws) e l h = absurd (omega (arith, e))
  cells-FillAll d (c ∷ cs) [] e l h = absurd (omega (arith, e))

  index-IsPlain : (b : Bool) (v : Value F) → IsPlain v → IsPlain (if b then string_value [] else v)
  index-IsPlain true v h = tt
  index-IsPlain false v h = h

  row-IsPlain :
      (d : Drawn F)
      → All IsAscii d.row.display_host
      → All IsMeasured d.results
      → All (λ c. IsPlain (value_at print d c)) column_specs
  unfolding value_at row_cells
  row-IsPlain d h m = (
    index-IsPlain ((0 == 0) && eqb_ℤ d.row.index (pos 0)) (int_value d.row.index) tt,
    (h, (m, (tt, (tt, (tt, tt))))),
  )

-- The columns of a terminal with `host + results` left for the proportional ones.
abbrev widths_with : ℕ → ℕ → List ℕ
widths_with host results = 3 ∷ host ∷ results ∷ 5 ∷ 6 ∷ 5 ∷ []

recalc-widths :
    (share : ℕ → ℕ → ℤ → ℤ) (width : ℕ)
    → IsNearest share
    → 33 ≤ width
    → (host : ℕ) × (results : ℕ) × (recalc_column_widths share (pos width)
        ≡ map pos (widths_with host results))
      × (1 ≤ host)
      × (1 ≤ results)
      × (host + results + 31 ≡ width)
unfolding recalc_column_widths fixed_total proportional_total ◌+ℤ◌ ◌-ℤ◌
recalc-widths share width near l =
    let avail = width - 31 in
    let (m, e, e1, e2) = near 2 5 avail (omega arith) in
    let (n, q, q1, q2) = near 3 5 avail (omega arith) in
    let left : pos width -ℤ pos 31 ≡ pos avail = ground arith in
    (m, n, rw (left, e, q) refl, omega arith, omega arith, omega arith)

column_specs-HasAsciiTitle : All HasAsciiTitle column_specs
column_specs-HasAsciiTitle = omega arith

pub header_view-IsFull :
    (share : ℕ → ℕ → ℤ → ℤ) (width : ℕ)
    → IsNearest share
    → 33 ≤ width
    → (hs : List Block) × (header_view (recalc_column_widths share (pos width)) ≡ ok hs)
      × All IsFull hs
      × (span hs ≡ width)
unfolding header_view
header_view-IsFull share width near l =
    let (m, n, e, m1, n1, total) = recalc-widths share width near l in
    let ws = widths_with m n in
    let wide : All (λ w. 1 ≤ w) ws = omega arith in
    let (hs, p, f) = headers-FillAll column_specs ws refl wide column_specs-HasAsciiTitle in
    let (i, j) = FillAll-widths hs ws f in
    (hs, ap (header_blocks column_specs) e ∙ p, FillAll-IsFull hs ws f, omega (arith, j, total))

-- On a terminal of at least 33 columns, with parts rounded to the nearest whole column, neither the
-- header nor a row panics, whatever the row's numbers are, if its host is ASCII text and no latency
-- among its results is negative. Each text and picture fills its column to the padding, the header's
-- columns stand above the row's, and together they are as wide as the terminal. Numbers are taken to
-- be printed as ASCII text, and a latency's part of the scale to be between 0 and 1.
pub render_row-header_view :
    {F : Type 0} (print : Printing F) (share : ℕ → ℕ → ℤ → ℤ) (width : ℕ) (d : Drawn F)
    → PrintsAscii print
    → IsScale print.scale
    → IsNearest share
    → All IsAscii d.row.display_host
    → All IsMeasured d.results
    → 33 ≤ width
    → (hs : List Block) × (bs : List Block) × (header_view (recalc_column_widths share (pos width))
        ≡ ok hs)
      × (render_row print d (recalc_column_widths share (pos width)) ≡ ok bs)
      × All IsFull hs
      × All IsFull bs
      × (map (λ (b : Block). b.style_width) hs ≡ map (λ (b : Block). b.style_width) bs)
      × (span hs ≡ width)
unfolding header_view render_row
render_row-header_view print share width d ascii parts near h measured l =
    let (m, n, e, m1, n1, total) = recalc-widths share width near l in
    let ws = widths_with m n in
    let wide : All (λ w. 1 ≤ w) ws = omega arith in
    let (hs, p, f) = headers-FillAll column_specs ws refl wide column_specs-HasAsciiTitle in
    let (bs, q, g) =
      cells-FillAll print ascii parts d column_specs ws refl wide
        (row-IsPlain print ascii parts d h measured) in
    let (i, j) = FillAll-widths hs ws f in
    (
      hs,
      bs,
      ap (header_blocks column_specs) e ∙ p,
      ap (render_cells print d column_specs) e ∙ q,
      FillAll-IsFull hs ws f,
      FillAll-IsFull bs ws g,
      i ∙ sym (FillAll-widths bs ws g).0,
      omega (arith, j, total),
    )
