-- ===== src/Sortselect/Opening.antt =====
-- Opening the selection on the table's sort order: what New shows, and accepting it again.
use vasily.Base.{
  one_if, ℕ, zero, suc, ◌+◌, ◌≤◌, ◌<◌, ◌==◌, ==_iff, ltb, Bool, true, false, Bool-cases, Option,
  none, some, some_injective, List, [], ◌∷◌, map, length, get_elem?, get_elem?-map, get_elem?-lt,
  All, All-get_elem?, ◌≡◌, ◌≢◌, inl, inr, refl, sym, ap, ap₂, ◌∙◌, arith,
}
use mathlib.Core.Path.{subst}
use vasily.Sortselect.Toggling.{if_true, if_false}
use vasily.Sortselect.{SortColumn, ListItem, index_of, new_item, new_model, handle_key_accept}
use vasily.Sortselect.Places.{count, IsNumbered}
use vasily.Sortselect.Accepting.{accept-places, length-accept}

-- How often a column is among columns.
abbrev pub times : ℕ → List ℕ → ℕ
times id [] = 0
times id (x ∷ xs) = one_if (x == id) + times id xs

abbrev pub ids : List SortColumn → List ℕ
ids cols = map (λ (c : SortColumn). c.column_id) cols

-- No column twice.
abbrev pub IsDistinct : List ℕ → Type 0
IsDistinct xs = (id : ℕ) → times id xs ≤ 1

-- Each column of the order can be chosen, and is shown once.
abbrev pub IsOffered : List ℕ → List SortColumn → Type 0
IsOffered avail cols = All (λ (c : SortColumn). times c.column_id avail ≡ 1) cols

times-get_elem? : (xs : List ℕ) (k : ℕ) {x : ℕ} → get_elem? xs k ≡ some x → 1 ≤ times x xs
times-get_elem? [] k h = cc
times-get_elem? (y ∷ xs) zero {x} h =
    let q : one_if (y == x) ≡ 1 = ap one_if ((==_iff y x).1 (some_injective h)) in omega (arith, q)
times-get_elem? (y ∷ xs) (suc k) h = omega (arith, times-get_elem? xs k h)

get_elem?-times : (x : ℕ) (xs : List ℕ) → 1 ≤ times x xs → (j : ℕ) × (get_elem? xs j ≡ some x)
get_elem?-times x [] h = absurd (omega arith)
get_elem?-times x (y ∷ xs) h = elim (Bool-cases (y == x)) [
  | inl q ↦ (0, ap some ((==_iff y x).0 q))
  | inr q ↦ let (j, g) = get_elem?-times x xs (omega (arith, h, ap one_if q)) in (suc j, g)
]

tail-IsDistinct : (x : ℕ) (xs : List ℕ) → IsDistinct (x ∷ xs) → IsDistinct xs
tail-IsDistinct x xs h id = omega (arith, h id)

-- `IndexFunc` finds the place of a column in the order.
index_of-get_elem? :
    (cols : List SortColumn) (j k : ℕ) {c : SortColumn}
    → IsDistinct (ids cols)
    → get_elem? cols k ≡ some c
    → index_of c.column_id cols j ≡ some (k + j, c)
index_of-get_elem? [] j k h g = cc
index_of-get_elem? (x ∷ cols) j zero {c} h g =
    let q =
      (==_iff x.column_id c.column_id).1
        (ap (λ (z : SortColumn). z.column_id) (some_injective g)) in
    if_true (x.column_id == c.column_id) _ _ q
    ∙ ap₂ (λ i z. some (i, z)) (omega arith) (some_injective g)
index_of-get_elem? (x ∷ cols) j (suc k) {c} h g =
    let in_rest =
      times-get_elem? (ids cols) k (get_elem?-map (λ (z : SortColumn). z.column_id) cols k g) in
    if_false (x.column_id == c.column_id) _ _
      (other (x.column_id == c.column_id) _ in_rest (h c.column_id))
    ∙ index_of-get_elem? cols (j + 1) k (tail-IsDistinct x.column_id (ids cols) h) g
    ∙ ap (λ i. some (i, c)) (omega arith)
  where
    other : (b : Bool) (n : ℕ) → 1 ≤ n → one_if b + n ≤ 1 → b ≡ false
    other b n l h = ground arith

-- What it finds is in the order, at that place.
index_of_sound :
    (cols : List SortColumn) (j id i : ℕ) (c : SortColumn)
    → index_of id cols j ≡ some (i, c)
    → (k : ℕ) × (i ≡ k + j) × (get_elem? cols k ≡ some c) × (c.column_id ≡ id)
index_of_sound [] j id i c h = cc
index_of_sound (x ∷ cols) j id i c h = elim (Bool-cases (x.column_id == id)) [
  | inl q ↦
      let e = some_injective (sym (if_true (x.column_id == id) _ _ q) ∙ h) in
      let d = ap (λ (z : ℕ × SortColumn). z.1) e in
      (
        0,
        omega (arith, ap (λ (z : ℕ × SortColumn). z.0) e),
        ap some d,
        sym (ap (λ (z : SortColumn). z.column_id) d) ∙ (==_iff x.column_id id).0 q,
      )
  | inr q ↦
      let (k, e, g, r) =
        index_of_sound cols (j + 1) id i c (sym (if_false (x.column_id == id) _ _ q) ∙ h) in
      (suc k, omega (arith, e), g, r)
]

-- An item with the place `k + 1` is that of the column at `k`.
sel-get_elem? :
    (cols : List SortColumn) (id k : ℕ)
    → (new_item id (index_of id cols 0)).sel ≡ suc k
    → (c : SortColumn) × (get_elem? cols k ≡ some c) × (c.column_id ≡ id)
sel-get_elem? cols id k h = go (index_of id cols 0) refl h
  where
    go :
        (o : Option (ℕ × SortColumn))
        → index_of id cols 0 ≡ o
        → (new_item id o).sel ≡ suc k
        → (c : SortColumn) × (get_elem? cols k ≡ some c) × (c.column_id ≡ id)
    go none e s = absurd (omega arith)
    go (some (i, c)) e s =
        let (n, at, g, r) = index_of_sound cols 0 id i c e in
        let same : n ≡ k = omega arith in (c, subst (λ n. get_elem? cols n ≡ some c) same g, r)

item_found :
    (cols : List SortColumn) (k : ℕ) {c : SortColumn}
    → IsDistinct (ids cols)
    → get_elem? cols k ≡ some c
    → new_item c.column_id (index_of c.column_id cols 0) ≡ record { col = c; sel = k + 1 }
item_found cols k {c} h g =
    ap (new_item c.column_id) (index_of-get_elem? cols 0 k h g)
    ∙ ap (λ n. record { col = c; sel = n }) (omega arith)

item_here :
    (cols : List SortColumn) (id k : ℕ) {c : SortColumn}
    → IsDistinct (ids cols)
    → get_elem? cols k ≡ some c
    → one_if ((new_item id (index_of id cols 0)).sel == suc k) ≡ one_if (c.column_id == id)
item_here cols id k {c} h g = elim (Bool-cases (c.column_id == id)) [
  | inl q ↦
      let s : (new_item c.column_id (index_of c.column_id cols 0)).sel ≡ suc k =
        ap (λ (z : ListItem). z.sel) (item_found cols k h g) ∙ omega arith in
      ap one_if (
        (==_iff (new_item id (index_of id cols 0)).sel (suc k)).1 (
          subst (λ id. (new_item id (index_of id cols 0)).sel ≡ suc k) ((==_iff c.column_id id).0 q)
            s)
        ∙ sym q)
  | inr q ↦ elim (Bool-cases ((new_item id (index_of id cols 0)).sel == suc k)) [
    | inl r ↦
        let (d, e, s) =
          sel-get_elem? cols id k ((==_iff (new_item id (index_of id cols 0)).sel (suc k)).0 r) in
        let t : c.column_id ≡ id =
          ap (λ (z : SortColumn). z.column_id) (some_injective (sym g ∙ e)) ∙ s in
        absurd (unequal (c.column_id == id) ((==_iff c.column_id id).1 t) q)
    | inr r ↦ ap one_if (r ∙ sym q)
  ]
]
  where
    unequal : (b : Bool) → b ≡ true → b ≢ false
    unequal b h k = cc

item_nowhere :
    (cols : List SortColumn) (id k : ℕ)
    → length cols ≤ k
    → one_if ((new_item id (index_of id cols 0)).sel == suc k) ≡ 0
item_nowhere cols id k l = elim (Bool-cases ((new_item id (index_of id cols 0)).sel == suc k)) [
  | inl r ↦
      let (d, e, s) =
        sel-get_elem? cols id k ((==_iff (new_item id (index_of id cols 0)).sel (suc k)).0 r) in
      let inside : k < length cols = get_elem?-lt cols k e in absurd (omega arith)
  | inr r ↦ ap one_if r
]

abbrev item_of : List SortColumn → ℕ → ListItem
item_of cols id = new_item id (index_of id cols 0)

count_here :
    (cols : List SortColumn) (avail : List ℕ) (k : ℕ) {c : SortColumn}
    → IsDistinct (ids cols)
    → get_elem? cols k ≡ some c
    → count (suc k) (map (item_of cols) avail) ≡ times c.column_id avail
count_here cols [] k h g = refl
count_here cols (id ∷ avail) k {c} h g =
    ap₂ (λ a b. a + b) (item_here cols id k h g ∙ ap one_if (flip c.column_id id))
      (count_here cols avail k h g)
  where
    flip : (a b : ℕ) → (a == b) ≡ (b == a)
    flip a b = ground arith

count_nowhere :
    (cols : List SortColumn) (avail : List ℕ) (k : ℕ)
    → length cols ≤ k
    → count (suc k) (map (item_of cols) avail) ≡ 0
count_nowhere cols [] k l = refl
count_nowhere cols (id ∷ avail) k l =
    omega (arith, item_nowhere cols id k l, count_nowhere cols avail k l)

get_elem?-inside {ℓ} :
    {A : Type ℓ} (xs : List A) (k : ℕ) → k < length xs → (x : A) × (get_elem? xs k ≡ some x)
get_elem?-inside [] k l = absurd (omega arith)
get_elem?-inside (x ∷ xs) zero l = (x, refl)
get_elem?-inside (x ∷ xs) (suc k) l = get_elem?-inside xs k (omega arith)

pub new_model-IsNumbered :
    (cur : List SortColumn) (avail : List ℕ)
    → IsDistinct (ids cur)
    → IsOffered avail cur
    → IsNumbered (new_model cur avail)
new_model-IsNumbered cur avail h o k = elim (Bool-cases (ltb k (length cur))) [
  | inl q ↦
      let (c, g) = get_elem?-inside cur k (inside k (length cur) q) in
      count_here cur avail k h g ∙ All-get_elem? _ cur k o g ∙ ap one_if (sym q)
  | inr q ↦ count_nowhere cur avail k (outside k (length cur) q) ∙ ap one_if (sym q)
]
  where
    inside : (k n : ℕ) → ltb k n ≡ true → k < n
    inside k n h = ground arith

    outside : (k n : ℕ) → ltb k n ≡ false → n ≤ k
    outside k n h = ground arith

list_eq {ℓ} :
    {A : Type ℓ} (xs ys : List A)
    → length xs ≡ length ys
    → ((k : ℕ) (y : A) → get_elem? ys k ≡ some y → get_elem? xs k ≡ some y)
    → xs ≡ ys
list_eq [] [] l f = refl
list_eq [] (y ∷ ys) l f = absurd (omega arith)
list_eq (x ∷ xs) [] l f = absurd (omega arith)
list_eq (x ∷ xs) (y ∷ ys) l f =
    ap₂ (λ a as'. a ∷ as') (some_injective (f 0 y refl))
      (list_eq xs ys (omega arith) (λ k. f (suc k)))

-- The selection that opens on a sort order without repeated columns, each of which is offered once,
-- gives the same order back when it is accepted.
pub new_model-accept :
    (cur : List SortColumn) (avail : List ℕ)
    → IsDistinct (ids cur)
    → IsOffered avail cur
    → handle_key_accept (new_model cur avail) ≡ cur
new_model-accept cur avail h o =
    let n = new_model-IsNumbered cur avail h o in
    list_eq (handle_key_accept (new_model cur avail)) cur (length-accept (new_model cur avail) n)
      (λ k c g.
        let once : times c.column_id avail ≡ 1 = All-get_elem? _ cur k o g in
        let (j, e) = get_elem?-times c.column_id avail (omega (arith, once)) in
        accept-places (new_model cur avail) k j n (get_elem?-map (item_of cur) avail j e)
          (ap (λ (z : ListItem). z.sel) (item_found cur k h g) ∙ omega arith)
        ∙ ap (λ (z : ListItem). some z.col) (item_found cur k h g))
