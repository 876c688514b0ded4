-- ===== src/Sortselect/Toggling.antt =====
-- Selecting a column and giving it up again.
use vasily.Base.{
  ℕ, zero, suc, ◌+◌, ◌≤◌, Bool, true, false, some, List, [], ◌∷◌, map, All, get_elem?, set,
  get_elem?-set_self, get_elem?-lt, ◌==◌, if◌then◌else◌, ◌≡◌, refl, sym, ap, ap₂, ◌∙◌, arith,
  ==_iff, ok, ◌>>=◌,
}
use vasily.Sortselect.{
  ListItem, Model, lower, toggle, handle_key_toggle, cleared, handle_clear, place_cols,
  handle_key_accept,
}

abbrev pub IsCounted : ℕ → ListItem → Type 0
IsCounted n it = it.sel ≤ n

set-set {ℓ} : {A : Type ℓ} (xs : List A) (i : ℕ) (a b : A) → set (set xs i a) i b ≡ set xs i b
set-set [] i a b = refl
set-set (x ∷ xs) zero a b = refl
set-set (x ∷ xs) (suc i) a b = ap (λ t. x ∷ t) (set-set xs i a b)

set-get_elem? {ℓ} :
    {A : Type ℓ} (xs : List A) (i : ℕ) {a : A} → get_elem? xs i ≡ some a → set xs i a ≡ xs
set-get_elem? [] i h = refl
set-get_elem? (x ∷ xs) zero h = cc
set-get_elem? (x ∷ xs) (suc i) h = ap (λ t. x ∷ t) (set-get_elem? xs i h)

set-IsCounted :
    (n : ℕ) (xs : List ListItem) (i : ℕ) (a : ListItem)
    → All (IsCounted n) xs
    → a.sel ≤ n + 1
    → All (IsCounted (n + 1)) (set xs i a)
set-IsCounted n [] i a h l = tt
set-IsCounted n (x ∷ xs) zero a h l = (l, weaken n xs h.1)
  where
    weaken : (n : ℕ) (xs : List ListItem) → All (IsCounted n) xs → All (IsCounted (n + 1)) xs
    weaken n [] h = tt
    weaken n (x ∷ xs) h = (omega arith, weaken n xs h.1)
set-IsCounted n (x ∷ xs) (suc i) a h l = (omega arith, set-IsCounted n xs i a h.1 l)

lower_none : (n : ℕ) (it : ListItem) → it.sel ≤ n → lower n it ≡ it
unfolding lower
lower_none n it h = ground arith

map-lower : (n : ℕ) (xs : List ListItem) → All (IsCounted n) xs → map (lower n) xs ≡ xs
map-lower n [] h = refl
map-lower n (x ∷ xs) h =
    ap (λ t. t ∷ map (lower n) xs) (lower_none n x h.0) ∙ ap (λ t. x ∷ t) (map-lower n xs h.1)

pub if_true {ℓ} : {A : Type ℓ} (b : Bool) (x y : A) → b ≡ true → (if b then x else y) ≡ x
if_true true x y h = refl
if_true false x y h = cc

pub if_false {ℓ} : {A : Type ℓ} (b : Bool) (x y : A) → b ≡ false → (if b then x else y) ≡ y
if_false true x y h = cc
if_false false x y h = refl

suc_ne : (n : ℕ) → (n + 1 == 0) ≡ false
suc_ne n = ground arith

unselected : (it : ListItem) → it.sel ≡ 0 → record it { sel = 0 } ≡ it
unselected it z = ap (λ k. record it { sel = k }) (sym z)

-- The state once the column under the cursor is selected.
abbrev picked : Model → ListItem → Model
picked m it = record m {
  n_selected = m.n_selected + 1;
  items = set m.items m.cursor (record it { sel = m.n_selected + 1 });
}

toggle-picked : (m : Model) (it : ListItem) → it.sel ≡ 0 → toggle m it ≡ picked m it
unfolding toggle
toggle-picked m it z = if_true (it.sel == 0) _ _ ((==_iff it.sel 0).1 z)

dropped_items :
    (m : Model) (it : ListItem)
    → All (IsCounted m.n_selected) m.items
    → get_elem? m.items m.cursor ≡ some it
    → it.sel ≡ 0
    → let p = record it { sel = m.n_selected + 1 } in
      set (map (lower (m.n_selected + 1)) (set m.items m.cursor p)) m.cursor (record p { sel = 0 })
      ≡ m.items
dropped_items m it h g z =
    let n = m.n_selected in
    let p = record it { sel = n + 1 } in
    let xs = set m.items m.cursor p in
    let counted : All (IsCounted (n + 1)) xs = set-IsCounted n m.items m.cursor p h (omega arith) in
    ap (λ t. set t m.cursor (record p { sel = 0 })) (map-lower (n + 1) xs counted)
    ∙ set-set m.items m.cursor p (record p { sel = 0 })
    ∙ ap (set m.items m.cursor) (unselected it z)
    ∙ set-get_elem? m.items m.cursor g

toggle-given_up :
    (m : Model) (it : ListItem)
    → All (IsCounted m.n_selected) m.items
    → get_elem? m.items m.cursor ≡ some it
    → it.sel ≡ 0
    → toggle (picked m it) (record it { sel = m.n_selected + 1 }) ≡ m
unfolding toggle
toggle-given_up m it h g z =
    if_false (m.n_selected + 1 == 0) _ _ (suc_ne m.n_selected)
    ∙ ap₂ (λ xs k. record m { items = xs; n_selected = k }) (dropped_items m it h g z) (omega arith)

-- Where no place is above the number of selected columns, selecting the column under the cursor
-- and giving it up again leaves everything as it was.
pub toggle_twice :
    (m : Model) (it : ListItem)
    → All (IsCounted m.n_selected) m.items
    → get_elem? m.items m.cursor ≡ some it
    → it.sel ≡ 0
    → (handle_key_toggle m >>= handle_key_toggle) ≡ ok m
unfolding handle_key_toggle
toggle_twice m it h g z =
    let p = record it { sel = m.n_selected + 1 } in
    let here = get_elem?-set_self m.items m.cursor p (get_elem?-lt m.items m.cursor g) in
    rw (g, toggle-picked m it z, here) (ap ok (toggle-given_up m it h g z))

place_cols-cleared : (xs : List ListItem) → place_cols [] (map cleared xs) ≡ []
unfolding place_cols
place_cols-cleared [] = refl
place_cols-cleared (x ∷ xs) = place_cols-cleared xs

map-cleared : (xs : List ListItem) → map cleared (map cleared xs) ≡ map cleared xs
map-cleared [] = refl
map-cleared (x ∷ xs) = ap (λ t. cleared x ∷ t) (map-cleared xs)

-- After clearing, accepting hands no column to the table, whatever was selected, and clearing once
-- more changes nothing.
pub clear_accept :
    (m : Model)
    → (handle_key_accept (handle_clear m) ≡ []) × (handle_clear (handle_clear m) ≡ handle_clear m)
unfolding handle_key_accept handle_clear
clear_accept m = (
  place_cols-cleared m.items,
  ap (λ xs. record m { items = xs; n_selected = 0 }) (map-cleared m.items),
)
