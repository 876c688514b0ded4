-- ===== src/Table/Cells.antt =====
-- Cells as wide as their columns, and the numbers that are left out.
use vasily.Base.{
  ℕ, zero, suc, ◌+◌, ◌-◌, ◌<◌, ◌≤◌, ltb, leb, true, false, Bool-cases, ◌||◌, List, [], ◌∷◌, ◌++◌,
  length, take, All, if◌then◌else◌, Result, ok, panic, ◌>>=◌, ◌≡◌, ◌≢◌, inl, inr, refl, sym, ap,
  ◌∙◌, arith,
}
use mathlib.Core.Path.{subst}
use vasily.Base.Int.{ℤ, pos, negsuc, eqb_ℤ, ◌-ℤ◌, ◌≤ℤ◌}
use vasily.Backend.{Bytes}
use vasily.Privsep.Server.Conns.{same_id, same_id_eq}
use vasily.Table.{
  collapse_below, collapse, ellipsis, prefix, spaces, cut, lpad_by, rpad_by, lpad, rpad,
}

-- How the column of numbers is read: an empty cell stands for the number above.
abbrev pub read_number : ℤ → ℤ → ℤ
read_number prev i = if eqb_ℤ i (pos 0) then prev else i

unfoldable pub expand_below : ℤ → List ℤ → List ℤ
expand_below prev [] = []
expand_below prev (i ∷ is) = let n = read_number prev i in n ∷ expand_below n is

unfoldable pub expand : List ℤ → List ℤ
unfolding expand_below
expand [] = []
expand (i ∷ is) = i ∷ expand_below i is

not_zero : (i : ℤ) → i ≢ pos 0 → eqb_ℤ i (pos 0) ≡ false
not_zero i h = elim (Bool-cases (eqb_ℤ i (pos 0))) [
  | inl q ↦ absurd (h (same_id_eq i (pos 0) (unfold same_id in q)))
  | inr q ↦ q
]

read_number-shown :
    (prev i : ℤ) → i ≢ pos 0 → read_number prev (if eqb_ℤ i prev then pos 0 else i) ≡ i
read_number-shown prev i h = elim (Bool-cases (eqb_ℤ i prev)) [
  | inl q ↦ rw q (sym (same_id_eq i prev (unfold same_id in q)))
  | inr q ↦ rw q (rw (not_zero i h) refl)
]

below_collapse :
    (prev : ℤ) (is : List ℤ)
    → All (λ i. i ≢ pos 0) is
    → expand_below prev (collapse_below prev is) ≡ is
unfolding expand_below collapse_below
below_collapse prev [] h = refl
below_collapse prev (i ∷ is) h =
    let e = read_number-shown prev i h.0 in
    ap (λ n. n ∷ expand_below n (collapse_below i is)) e ∙ ap (λ t. i ∷ t) (below_collapse i is h.1)

-- No number is lost where `UpdateRows` leaves cells empty: reading each empty cell as the number
-- above gives the indexes of the rows back, if no index is 0.
pub expand-collapse : (is : List ℤ) → All (λ i. i ≢ pos 0) is → expand (collapse is) ≡ is
unfolding expand collapse
expand-collapse [] h = refl
expand-collapse (i ∷ is) h = ap (λ t. i ∷ t) (below_collapse i is h.1)

-- The cells on the terminal: the bytes that do not continue a character.
abbrev pub cells : Bytes → ℕ
cells [] = 0
cells (b ∷ s) = if ltb b 128 || leb 192 b then suc (cells s) else cells s

abbrev pub IsAscii : ℕ → Type 0
IsAscii b = b < 128

-- A text as wide as the column, or a panic, which only a column without width gives.
pub data Shown (i : ℤ) (r : Result Bytes) : Type 0 where
  fits : (w : ℕ) (t : Bytes) → i ≡ pos w → r ≡ ok t → cells t ≡ w → Shown i r
  crashes : i ≤ℤ pos 0 → r ≡ panic → Shown i r

cells-append : (a b : Bytes) → cells (a ++ b) ≡ cells a + cells b
cells-append [] b = omega arith
cells-append (x ∷ a) b = elim (Bool-cases (ltb x 128 || leb 192 x)) [
  | inl q ↦ rw q (omega (arith, cells-append a b))
  | inr q ↦ rw q (cells-append a b)
]

cells-length : (s : Bytes) → All IsAscii s → cells s ≡ length s
cells-length [] h = refl
cells-length (b ∷ s) h = rw (narrow b h.0) (ap suc (cells-length s h.1))
  where
    narrow : (b : ℕ) → b < 128 → (ltb b 128 || leb 192 b) ≡ true
    narrow b h = ground arith

cells-spaces : (n : ℕ) → cells (spaces n) ≡ n
cells-spaces zero = refl
cells-spaces (suc n) = ap suc (cells-spaces n)

cells-take : (n : ℕ) (s : Bytes) → All IsAscii s → n ≤ length s → cells (take n s) ≡ n
cells-take zero s h l = refl
cells-take (suc n) [] h l = absurd (omega (arith, l))
cells-take (suc n) (b ∷ s) h l = rw (narrow b h.0) (ap suc (cells-take n s h.1 (omega (arith, l))))
  where
    narrow : (b : ℕ) → b < 128 → (ltb b 128 || leb 192 b) ≡ true
    narrow b h = ground arith

prefix-ok : (s : Bytes) (n : ℕ) → n ≤ length s → prefix s (pos n) ≡ ok (take n s)
prefix-ok s n h = rw (within n (length s) h) refl
  where
    within : (n m : ℕ) → n ≤ m → leb n m ≡ true
    within n m h = ground arith

minus : (a b : ℕ) → b ≤ a → pos a -ℤ pos b ≡ pos (a - b)
unfolding ◌-ℤ◌
minus a b h = ground arith

short : (a b : ℕ) → a < b → pos a -ℤ pos b ≡ negsuc (b - a - 1)
unfolding ◌-ℤ◌
short a b h = ground arith

below_zero : (k b : ℕ) → (m : ℕ) × (negsuc k -ℤ pos b ≡ negsuc m)
unfolding ◌-ℤ◌
below_zero k b = (k + b, ground arith)

cut_at : Bytes → ℤ → Result Bytes
cut_at s z = prefix s z >>= λ t. ok (t ++ ellipsis)

cut-panic : (i : ℤ) (s : Bytes) (m : ℕ) → i -ℤ pos 1 ≡ negsuc m → cut i s ≡ panic
unfolding cut_at
cut-panic i s m e = ap (cut_at s) e

cut-Shown : (i : ℤ) (s : Bytes) → All IsAscii s → i ≤ℤ pos (length s) → Shown i (cut i s)
unfolding cut_at
cut-Shown (pos zero) s h l = crashes (omega arith) (cut-panic (pos 0) s _ (short 0 1 (omega arith)))
cut-Shown (negsuc k) s h l =
    let (m, e) = below_zero k 1 in crashes (omega arith) (cut-panic (negsuc k) s m e)
cut-Shown (pos (suc w)) s h l =
    let inside : w ≤ length s = omega (arith, l) in
    let back : suc w - 1 ≡ w = omega arith in
    fits (suc w) (take w s ++ ellipsis) refl
      (ap (cut_at s) (minus (suc w) 1 (omega arith) ∙ ap pos back)
        ∙ ap (λ r. r >>= λ t. ok (t ++ ellipsis)) (prefix-ok s w inside))
      (omega (arith, cells-append (take w s) ellipsis, cells-take w s h inside))

-- Both ways to pad, by the difference between the width and the length.
pad_by-Shown :
    (w : ℕ) (s : Bytes)
    → All IsAscii s
    → length s ≤ w
    → Shown (pos w) (rpad_by (pos w) (pos (w - length s)) s)
      × Shown (pos w) (lpad_by (pos w) (pos (w - length s)) s)
unfolding rpad_by lpad_by
pad_by-Shown w s h l =
    let n = w - length s in
    let c = cells-length s h in
    let d = cells-spaces n in
    let e = cells-append s (spaces n) in
    let f = cells-append (spaces n) s in
    (
      fits w (s ++ spaces n) refl refl (omega (arith, c, d, e, l)),
      fits w (spaces n ++ s) refl refl (omega (arith, c, d, f, l)),
    )

cut_by-Shown :
    (i : ℤ) (m : ℕ) (s : Bytes)
    → All IsAscii s
    → i ≤ℤ pos (length s)
    → Shown i (rpad_by i (negsuc m) s) × Shown i (lpad_by i (negsuc m) s)
unfolding rpad_by lpad_by
cut_by-Shown i m s h l = (cut-Shown i s h l, cut-Shown i s h l)

-- For a text of ASCII characters `rpad` and `lpad` give a cell of exactly the width of the column,
-- be it filled up or cut with an ellipsis, unless they panic; and they panic only where the width is
-- 0 or negative.
pub rpad-Shown : (i : ℤ) (s : Bytes) → All IsAscii s → Shown i (rpad i s) × Shown i (lpad i s)
unfolding rpad lpad
rpad-Shown (pos w) s h = elim (Bool-cases (leb (length s) w)) [
  | inl q ↦
      let l : length s ≤ w = ground (arith, q) in
      subst (λ n. Shown (pos w) (rpad_by (pos w) n s) × Shown (pos w) (lpad_by (pos w) n s))
        (sym (minus w (length s) l)) (pad_by-Shown w s h l)
  | inr q ↦
      let l : w < length s = ground (arith, q) in
      subst (λ n. Shown (pos w) (rpad_by (pos w) n s) × Shown (pos w) (lpad_by (pos w) n s))
        (sym (short w (length s) l))
        (cut_by-Shown (pos w) (length s - w - 1) s h (omega (arith, l)))
]
rpad-Shown (negsuc k) s h =
    let (m, e) = below_zero k (length s) in
    subst
      (λ n. Shown (negsuc k) (rpad_by (negsuc k) n s) × Shown (negsuc k) (lpad_by (negsuc k) n s))
      (sym e) (cut_by-Shown (negsuc k) m s h (omega arith))
