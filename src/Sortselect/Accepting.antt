-- ===== src/Sortselect/Accepting.antt =====
-- What accept hands to the table: each selected column at its place.
use vasily.Base.{
  one_if, ℕ, zero, suc, ◌+◌, ◌-◌, ◌≤◌, ◌<◌, ◌==◌, ==_iff, ltb, Bool, true, false, Bool-cases,
  Option, none, some, ◌⊎◌, some_injective, List, [], ◌∷◌, length, get_elem?, set, replicate,
  length-append, length-replicate, length-set, get_elem?-lt, get_elem?-append, get_elem?-set_self,
  get_elem?-set_ne, if◌then◌else◌, ok, ◌≡◌, ◌≢◌, inl, inr, refl, sym, ap, ◌∙◌, arith,
}
use mathlib.Core.Path.{subst}
use vasily.Sortselect.Toggling.{if_true, if_false}
use vasily.Sortselect.{
  SortColumn, ListItem, Model, zero_column, grown, place_cols, handle_key_accept, Input,
  handle_keys,
}
use vasily.Table.{set_sort, default_sort}
use vasily.Sortselect.Places.{count, IsNumbered, keys-IsNumbered}

-- The columns after one item.
abbrev placed : List SortColumn → ℕ → SortColumn → List SortColumn
placed cols n c = if ltb 0 n then set (grown cols n) (n - 1) c else cols

positive : (k : ℕ) → ltb 0 (suc k) ≡ true
positive k = ground arith

placed-suc :
    (cols : List SortColumn) (k : ℕ) (c : SortColumn)
    → placed cols (suc k) c ≡ set (grown cols (suc k)) k c
placed-suc cols k c =
    if_true (ltb 0 (suc k)) _ _ (positive k) ∙ ap (λ i. set (grown cols (suc k)) i c) (omega arith)

length-grown :
    (cols : List SortColumn) (n : ℕ)
    → (n ≤ length (grown cols n)) × (length cols ≤ length (grown cols n))
unfolding grown
length-grown cols n =
    let a = length-append cols (replicate (n - length cols) zero_column) in
    let b = length-replicate (n - length cols) zero_column in
    (omega (arith, a, b), omega (arith, a, b))

grown_within :
    (cols : List SortColumn) (n m : ℕ) → length cols ≤ m → n ≤ m → length (grown cols n) ≤ m
unfolding grown
grown_within cols n m h k =
    let a = length-append cols (replicate (n - length cols) zero_column) in
    let b = length-replicate (n - length cols) zero_column in omega (arith, a, b)

placed_self :
    (cols : List SortColumn) (n k : ℕ) (c : SortColumn)
    → n ≡ suc k
    → get_elem? (placed cols n c) k ≡ some c
placed_self cols n k c e =
    subst (λ n. get_elem? (placed cols n c) k ≡ some c) (sym e)
      (ap (λ l. get_elem? l k) (placed-suc cols k c)
        ∙ get_elem?-set_self (grown cols (suc k)) k c
            (omega (arith, (length-grown cols (suc k)).0)))

placed_other :
    (cols : List SortColumn) (n k : ℕ) (c : SortColumn) {d : SortColumn}
    → n ≢ suc k
    → get_elem? cols k ≡ some d
    → get_elem? (placed cols n c) k ≡ some d
placed_other cols zero k c ne h =
    ap (λ l. get_elem? l k) (if_false (ltb 0 zero) (set (grown cols 0) 0 c) cols refl) ∙ h
placed_other cols (suc n) k c ne h =
    ap (λ l. get_elem? l k) (placed-suc cols n c)
    ∙ get_elem?-set_ne (grown cols (suc n)) n k c (λ e. ne (ap suc e))
    ∙ unfold grown in get_elem?-append cols (replicate (suc n - length cols) zero_column) k h

placed_within :
    (cols : List SortColumn) (n m : ℕ) (c : SortColumn)
    → length cols ≤ m
    → n ≤ m
    → length (placed cols n c) ≤ m
placed_within cols zero m c h l = h
placed_within cols (suc n) m c h l =
    let e = ap length (placed-suc cols n c) in
    omega (arith, e, length-set (grown cols (suc n)) n c, grown_within cols (suc n) m h l)

-- A place that no item takes keeps its column.
place_cols-keeps :
    (items : List ListItem) (cols : List SortColumn) (k : ℕ) {c : SortColumn}
    → count (suc k) items ≡ 0
    → get_elem? cols k ≡ some c
    → get_elem? (place_cols cols items) k ≡ some c
unfolding place_cols
place_cols-keeps [] cols k h g = g
place_cols-keeps (it ∷ items) cols k h g =
    place_cols-keeps items (placed cols it.sel it.col) k (omega arith)
      (placed_other cols it.sel k it.col (differs it.sel (suc k) _ h) g)
  where
    differs : (n k c : ℕ) → one_if (n == k) + c ≡ 0 → n ≢ k
    differs n k c h e = ground arith

place_cols-places :
    (items : List ListItem) (cols : List SortColumn) (k j : ℕ) {it : ListItem}
    → count (suc k) items ≤ 1
    → get_elem? items j ≡ some it
    → it.sel ≡ suc k
    → get_elem? (place_cols cols items) k ≡ some it.col
unfolding place_cols
place_cols-places [] cols k j h g e = cc
place_cols-places (x ∷ items) cols k zero {it} h g e =
    let s : x.sel ≡ suc k = ap (λ (z : ListItem). z.sel) (some_injective g) ∙ e in
    place_cols-keeps items (placed cols x.sel x.col) k (only x.sel (suc k) _ h s)
      (placed_self cols x.sel k x.col s ∙ ap (λ (z : ListItem). some z.col) (some_injective g))
  where
    only : (n k c : ℕ) → one_if (n == k) + c ≤ 1 → n ≡ k → c ≡ 0
    only n k c h e = ground arith
place_cols-places (x ∷ items) cols k (suc j) h g e =
    place_cols-places items (placed cols x.sel x.col) k j (omega arith) g e

place_cols_within :
    (items : List ListItem) (cols : List SortColumn) (n : ℕ)
    → ((k : ℕ) → n ≤ k → count (suc k) items ≡ 0)
    → length cols ≤ n
    → length (place_cols cols items) ≤ n
unfolding place_cols
place_cols_within [] cols n h l = l
place_cols_within (it ∷ items) cols n h l =
    place_cols_within items (placed cols it.sel it.col) n (λ k m. omega (arith, h k m))
      (placed_within cols it.sel n it.col l (inside it.sel (λ k m. omega (arith, h k m))))
  where
    inside : (s : ℕ) → ((k : ℕ) → n ≤ k → one_if (s == suc k) ≡ 0) → s ≤ n
    inside zero f = omega arith
    inside (suc s) f = ground (arith, f s, ap one_if ((==_iff (suc s) (suc s)).1 refl))

has_place :
    (k : ℕ) (items : List ListItem)
    → 1 ≤ count k items
    → (j : ℕ) × (it : ListItem) × (get_elem? items j ≡ some it) × (it.sel ≡ k)
has_place k [] h = absurd (omega arith)
has_place k (x ∷ items) h = elim (Bool-cases (x.sel == k)) [
  | inl q ↦ (0, x, refl, (==_iff x.sel k).0 q)
  | inr q ↦
      let (j, it, g, e) = has_place k items (omega (arith, h, ap one_if q)) in (suc j, it, g, e)
]

pub accept-places :
    (m : Model) (k j : ℕ) {it : ListItem}
    → IsNumbered m
    → get_elem? m.items j ≡ some it
    → it.sel ≡ suc k
    → get_elem? (handle_key_accept m) k ≡ some it.col
unfolding handle_key_accept
accept-places m k j h g e = place_cols-places m.items [] k j (once (ltb k m.n_selected) _ (h k)) g e
  where
    once : (b : Bool) (c : ℕ) → c ≡ one_if b → c ≤ 1
    once b c h = ground arith

pub length-accept : (m : Model) → IsNumbered m → length (handle_key_accept m) ≡ m.n_selected
unfolding handle_key_accept
length-accept m h = both m.n_selected (length (place_cols [] m.items)) upper lower
  where
    past : (k n : ℕ) → n ≤ k → ltb k n ≡ false
    past k n h = ground arith

    last : (k n : ℕ) → suc k ≡ n → ltb k n ≡ true
    last k n e = ground arith

    upper : length (place_cols [] m.items) ≤ m.n_selected
    upper =
        place_cols_within m.items [] m.n_selected (λ k l. h k ∙ ap one_if (past k m.n_selected l))
          (omega arith)

    lower : (n : ℕ) → suc n ≡ m.n_selected → n < length (place_cols [] m.items)
    lower n e =
        let one : count (suc n) m.items ≡ 1 = h n ∙ ap one_if (last n m.n_selected e) in
        let (j, it, g, s) = has_place (suc n) m.items (omega (arith, one)) in
        get_elem?-lt (place_cols [] m.items) n
          (place_cols-places m.items [] n j (omega (arith, one)) g s)

    both : (a b : ℕ) → b ≤ a → ((n : ℕ) → suc n ≡ a → n < b) → b ≡ a
    both zero b h f = omega arith
    both (suc a) b h f = omega (arith, f a refl)

-- An item is not selected, or its column is at its place.
abbrev pub IsPlaced : List SortColumn → ListItem → Type 0
IsPlaced cols it = (it.sel ≡ 0) ⊎ (get_elem? cols (it.sel - 1) ≡ some it.col)

-- Place k is past the end, or that of an item that is selected there.
abbrev pub IsTaken : Model → ℕ → Type 0
IsTaken m k =
    (m.n_selected ≤ k)
    ⊎ ((j : ℕ) × (it : ListItem) × (get_elem? m.items j ≡ some it)
        × (it.sel ≡ suc k)
        × (get_elem? (handle_key_accept m) k ≡ some it.col))

accept-IsPlaced :
    (m : Model) (j : ℕ) (it : ListItem) (n : ℕ)
    → IsNumbered m
    → get_elem? m.items j ≡ some it
    → it.sel ≡ n
    → IsPlaced (handle_key_accept m) it
accept-IsPlaced m j it zero h g e = inl e
accept-IsPlaced m j it (suc k) h g e = inr (
    subst (λ i. get_elem? (handle_key_accept m) i ≡ some it.col) (omega (arith, e))
      (accept-places m k j h g e))

accept-IsTaken : (m : Model) (k : ℕ) → IsNumbered m → IsTaken m k
accept-IsTaken m k h = elim (Bool-cases (ltb k m.n_selected)) [
  | inl q ↦
      let (j, it, g, e) = has_place (suc k) m.items (omega (arith, h k, ap one_if q)) in
      inr (j, it, g, e, accept-places m k j h g e)
  | inr q ↦ inl (past k m.n_selected q)
]
  where
    past : (k n : ℕ) → ltb k n ≡ false → n ≤ k
    past k n q = ground arith

set_sort-length :
    (cols : List SortColumn) (n : ℕ)
    → length cols ≡ n
    → set_sort cols ≡ (if n == 0 then default_sort else cols)
set_sort-length [] zero h = refl
set_sort-length [] (suc n) h = absurd (omega (arith, h))
set_sort-length (c ∷ cols) zero h = absurd (omega (arith, h))
set_sort-length (c ∷ cols) (suc n) h = sym (if_false (suc n == 0) _ _ (not_zero n))
  where
    not_zero : (n : ℕ) → (suc n == 0) ≡ false
    not_zero n = ground arith

-- However columns are selected, given up, reversed and cleared, from a selection with the places 1,
-- 2, 3, ... taken once each: accept hands over as many columns as are counted, which the table sorts
-- by, or by its default if there are none; each item is not selected or its column is handed over at
-- its place; and each of the places counted is that of an item, whose column is handed over there.
pub keys-accept :
    (xs : List Input) (m m' : Model) (k j : ℕ)
    → IsNumbered m
    → handle_keys m xs ≡ ok m'
    → (length (handle_key_accept m') ≡ m'.n_selected)
      × (set_sort (handle_key_accept m')
          ≡ (if m'.n_selected == 0 then default_sort else handle_key_accept m'))
      × ((get_elem? m'.items j ≡ none)
          ⊎ ((it : ListItem) × (get_elem? m'.items j ≡ some it)
              × IsPlaced (handle_key_accept m') it))
      × IsTaken m' k
keys-accept xs m m' k j h r =
    let n = keys-IsNumbered xs m m' h r in
    (
      length-accept m' n,
      set_sort-length (handle_key_accept m') m'.n_selected (length-accept m' n),
      item_at (get_elem? m'.items j) refl n,
      accept-IsTaken m' k n,
    )
  where
    item_at :
        (o : Option ListItem)
        → get_elem? m'.items j ≡ o
        → IsNumbered m'
        → (get_elem? m'.items j ≡ none)
          ⊎ ((it : ListItem) × (get_elem? m'.items j ≡ some it)
              × IsPlaced (handle_key_accept m') it)
    item_at none g n = inl g
    item_at (some it) g n = inr (it, g, accept-IsPlaced m' j it it.sel n g refl)
