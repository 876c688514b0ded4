-- ===== src/Table/Pictures.antt =====
-- internal/tui/table/table.go: the picture that `renderLatencies` draws.
use vasily.Base.{
  ℕ, zero, suc, ◌+◌, ◌-◌, ◌≤◌, ◌<◌, ltb, All, true, false, List, [], ◌∷◌, ◌++◌, append_assoc,
  append-nil, length-append, length-replicate, length-take, reverse, length, take, set, replicate,
  ok, ◌≡◌, refl, sym, ap, ap₂, ◌∙◌, arith,
}
use mathlib.Core.List.{reverse-cons}
use vasily.Sortselect.Toggling.{if_true, if_false}
use vasily.Base.Int.{ℤ, pos, negsuc, ◌≤ℤ◌}
use vasily.History.{PingResult}
use vasily.Table.Latencies.{
  Scale, element_at, bars, ansi_gradient, ansi256_gradient, Cell, char, bar, color, bar_for,
  cell_for, cell_of, render_loop, render_latencies,
}

-- A part between 0 and 1 gives a number between 0 and n.
abbrev pub IsScale : Scale → Type 0
IsScale scale =
    (n l : ℕ)
    → (i : ℕ) × (j : ℕ) × (scale.part n (pos l) ≡ pos i)
      × (i ≤ n)
      × (scale.nearest n (pos l) ≡ pos j)
      × (j ≤ n)

-- A latency that is not negative.
abbrev pub IsMeasured : PingResult → Type 0
IsMeasured r = pos 0 ≤ℤ r.latency

-- The cells of results, one for one.
abbrev pub AreCells : Scale → List PingResult → List Cell → Type 0
AreCells scale [] [] = Unit {0}
AreCells scale (r ∷ rs) (c ∷ cs) = (cell_of scale r ≡ ok c) × AreCells scale rs cs
AreCells scale _ _ = ⊥

index_within {ℓ} :
    {A : Type ℓ} (xs : List A) (i : ℕ) → i < length xs → (x : A) × (element_at xs (pos i) ≡ ok x)
unfolding element_at
index_within [] i h = absurd (omega arith)
index_within (x ∷ xs) zero h = (x, refl)
index_within (x ∷ xs) (suc i) h = index_within xs i (omega arith)

cell_drawn :
    (scale : Scale) (r : PingResult)
    → IsScale scale
    → IsMeasured r
    → (c : Cell) × (cell_of scale r ≡ ok c)
unfolding cell_of bar_for color
cell_drawn scale r s m = at r.latency refl m
  where
    at : (l : ℤ) → r.latency ≡ l → pos 0 ≤ℤ l → (c : Cell) × (cell_of scale r ≡ ok c)
    at (negsuc l) e m = absurd (omega (arith, m))
    at (pos l) e m =
        let (i, j, p, i7, n, j7) = s 7 l in
        let (i2, j2, p2, i22, n2, j22) = s 2 l in
        let (i6, j6, p6, i66, n6, j66) = s 6 l in
        let (a, qa) = index_within ansi_gradient j2 (omega (arith, j22)) in
        let (a256, qb) = index_within ansi256_gradient j6 (omega (arith, j66)) in
        let (b, qc) = index_within bars i (omega (arith, i7)) in
        (
          cell_for r.result_type (bar b (record { ansi = a; ansi256 = a256 })),
          simp (e, n2, n6, p, qa, qb, qc) refl,
        )

set-replicate :
    (k : ℕ) (b c : Cell) (done : List Cell)
    → set (replicate (suc k) b ++ done) k c ≡ replicate k b ++ (c ∷ done)
set-replicate zero b c done = refl
set-replicate (suc k) b c done = ap (λ t. b ∷ t) (set-replicate k b c done)

-- Spaces, and cells from the right.
abbrev pub picture : ℕ → List Cell → List Cell
picture n cs = replicate (n - length cs) (char 32) ++ reverse cs

full : (i width : ℕ) → zero + i ≡ width → ltb i width ≡ false
full i width h = ground arith

free : (i n width : ℕ) → suc n + i ≡ width → ltb i width ≡ true
free i n width h = ground arith

length-reverse {ℓ} : {A : Type ℓ} (xs : List A) → length (reverse xs) ≡ length xs
length-reverse [] = refl
length-reverse (x ∷ xs) =
    ap length (reverse-cons x xs)
    ∙ length-append (reverse xs) (x ∷ [])
    ∙ omega (arith, length-reverse xs)

length-AreCells :
    (scale : Scale) (rs : List PingResult) (cs : List Cell)
    → AreCells scale rs cs
    → length cs ≡ length rs
length-AreCells scale [] [] h = refl
length-AreCells scale (r ∷ rs) (c ∷ cs) h = omega (arith, length-AreCells scale rs cs h.1)
length-AreCells scale [] (c ∷ cs) h = absurd h
length-AreCells scale (r ∷ rs) [] h = absurd h

module _ (scale : Scale) (s : IsScale scale) where
  render_loop-picture :
      (rs : List PingResult) (n i width : ℕ) (done : List Cell)
      → All IsMeasured rs
      → n + i ≡ width
      → (cs : List Cell) × AreCells scale (take n rs) cs
        × (render_loop scale width i rs (replicate n (char 32) ++ done)
            ≡ ok (replicate (n - length cs) (char 32) ++ (reverse cs ++ done)))
  unfolding render_loop
  render_loop-picture [] n i width done m h =
      ([], none_taken n, ap (λ a. ok (replicate a (char 32) ++ done)) (omega arith))
    where
      none_taken : (n : ℕ) → AreCells scale (take n []) []
      none_taken zero = tt
      none_taken (suc n) = tt
  render_loop-picture (r ∷ rs) zero i width done m h =
      let (c, q) = cell_drawn scale r s m.0 in
      ([], tt, simp (q) (if_false (ltb i width) _ _ (full i width h)))
  render_loop-picture (r ∷ rs) (suc n) i width done m h =
      let (c, q) = cell_drawn scale r s m.0 in
      let (cs, k, e) = render_loop-picture rs n (i + 1) width (c ∷ done) m.1 (omega arith) in
      let chars = replicate (suc n) (char 32) ++ done in
      let first : render_loop scale width i (r ∷ rs) chars
          ≡ render_loop scale width (i + 1) rs (set chars (width - i - 1) c) =
        simp (q) (if_true (ltb i width) _ _ (free i n width h)) in
      (
        c ∷ cs,
        (q, k),
        first
            ∙ ap
                (λ k.
                  render_loop scale width (i + 1) rs
                    (set (replicate (suc n) (char 32) ++ done) k c))
                (omega arith)
            ∙ ap (render_loop scale width (i + 1) rs) (set-replicate n (char 32) c done)
            ∙ e
            ∙ ap₂ (λ a b. ok (replicate a (char 32) ++ b)) (omega arith)
                (sym (append_assoc (reverse cs) (c ∷ []) done)
                  ∙ ap (λ l. l ++ done) (sym (reverse-cons c cs))),
      )

-- If no latency is negative, a column shows exactly as many cells as it is wide: from the right the
-- newest results that there is room for, one cell each, and spaces in front of them. The parts of
-- the scale are taken to be between 0 and 1.
pub render_latencies-picture :
    (scale : Scale) (width : ℕ) (rs : List PingResult)
    → IsScale scale
    → All IsMeasured rs
    → (cs : List Cell) × AreCells scale (take width rs) cs
      × (render_latencies scale (pos width) rs ≡ ok (picture width cs))
      × (length (picture width cs) ≡ width)
unfolding render_latencies
render_latencies-picture scale width rs s m =
    let (cs, k, e) = render_loop-picture scale s rs width 0 width [] m (omega arith) in
    (
      cs,
      k,
      ap (render_loop scale width 0 rs) (sym (append-nil (replicate width (char 32))))
          ∙ e
          ∙ ap (λ l. ok (replicate (width - length cs) (char 32) ++ l)) (append-nil _),
      length-append (replicate (width - length cs) (char 32)) (reverse cs)
          ∙ omega (
            arith,
            length-replicate (width - length cs) (char 32),
            length-reverse cs,
            length-AreCells scale (take width rs) cs k,
            length-take width rs,
          ),
    )
