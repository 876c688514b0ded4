-- ===== src/Table/Orders.antt =====
-- Comparisons that order, and what they are built from.
use vasily.Base.{Bool, true, false, [], ◌∷◌, ◌≡◌, ◌⊎◌, inl, inr, refl, sym, ap, ap₂, ◌∙◌, arith}
use vasily.Base.Int.{pos}
use vasily.Backend.{Bytes}
use vasily.Table.{
  Comparison, less, same, more, negate, compare_ints, then_by, compare_strings, reversed,
}

-- A comparison that orders: swapped it is turned around, what is alike compares alike, and less is
-- transitive.
pub record IsOrder {A : Type 0} (cmp : A → A → Comparison) : Type 0 where
  pub swaps : (a b : A) → cmp b a ≡ negate (cmp a b)
  pub alike : (a b c : A) → cmp a b ≡ same → cmp a c ≡ cmp b c
  pub trans : (a b c : A) → cmp a b ≡ less → cmp b c ≡ less → cmp a c ≡ less

Comparison-cases : (c : Comparison) → (c ≡ less) ⊎ ((c ≡ same) ⊎ (c ≡ more))
Comparison-cases less = inl refl
Comparison-cases same = inr (inl refl)
Comparison-cases more = inr (inr refl)

negate-negate : (c : Comparison) → negate (negate c) ≡ c
negate-negate less = refl
negate-negate same = refl
negate-negate more = refl

module _ {A : Type 0} (cmp : A → A → Comparison) (o : IsOrder cmp) where
  -- What is alike on the right.
  alike_right : (a b c : A) → cmp b c ≡ same → cmp a b ≡ cmp a c
  alike_right a b c e = o.swaps b a ∙ ap negate (o.alike b c a e) ∙ sym (o.swaps c a)

  negate-IsOrder : IsOrder (λ a b. negate (cmp a b))
  negate-IsOrder = record {
    swaps = λ a b. ap negate (o.swaps a b);
    alike = λ a b c e. ap negate (o.alike a b c (sym (negate-negate (cmp a b)) ∙ ap negate e));
    trans = λ a b c p q.
        let more_ab : cmp a b ≡ more = sym (negate-negate (cmp a b)) ∙ ap negate p in
        let more_bc : cmp b c ≡ more = sym (negate-negate (cmp b c)) ∙ ap negate q in
        let r = o.trans c b a (o.swaps b c ∙ ap negate more_bc) (o.swaps a b ∙ ap negate more_ab) in
        sym (o.swaps a c) ∙ r;
  }

  pub reversed-IsOrder : (r : Bool) → IsOrder (λ a b. reversed r (cmp a b))
  reversed-IsOrder true = negate-IsOrder
  reversed-IsOrder false = o

  pub along-IsOrder : {B : Type 0} (f : B → A) → IsOrder (λ a b. cmp (f a) (f b))
  along-IsOrder f = record {
    swaps = λ a b. o.swaps (f a) (f b);
    alike = λ a b c. o.alike (f a) (f b) (f c);
    trans = λ a b c. o.trans (f a) (f b) (f c);
  }

then_by-negate : (x y : Comparison) → then_by (negate x) (negate y) ≡ negate (then_by x y)
then_by-negate less y = refl
then_by-negate same y = refl
then_by-negate more y = refl

then_by-same : (x y : Comparison) → then_by x y ≡ same → (x ≡ same) × (y ≡ same)
then_by-same less y e = cc
then_by-same same y e = (refl, e)
then_by-same more y e = cc

then_by-less : (x y : Comparison) → then_by x y ≡ less → (x ≡ less) ⊎ ((x ≡ same) × (y ≡ less))
then_by-less less y e = inl refl
then_by-less same y e = inr (refl, e)
then_by-less more y e = cc

-- One order after another, for three elements of which the second comparisons are given.
then_by_trans :
    {A : Type 0} (f : A → A → Comparison) (p : IsOrder f) (a b c : A) (ab bc ac : Comparison)
    → (ab ≡ less → bc ≡ less → ac ≡ less)
    → then_by (f a b) ab ≡ less
    → then_by (f b c) bc ≡ less
    → then_by (f a c) ac ≡ less
then_by_trans f p a b c ab bc ac t u v = elim (then_by-less (f a b) ab u) [
  | inl x ↦ elim (then_by-less (f b c) bc v) [
    | inl y ↦ ap (λ r. then_by r ac) (p.trans a b c x y)
    | inr (y, z) ↦ ap (λ r. then_by r ac) (sym (alike_right f p a b c y) ∙ x)
  ]
  | inr (x, w) ↦ elim (then_by-less (f b c) bc v) [
    | inl y ↦ ap (λ r. then_by r ac) (p.alike a b c x ∙ y)
    | inr (y, z) ↦ ap₂ then_by (p.alike a b c x ∙ y) (t w z)
  ]
]

pub then_by-IsOrder :
    {A : Type 0} (f g : A → A → Comparison)
    → IsOrder f
    → IsOrder g
    → IsOrder (λ a b. then_by (f a b) (g a b))
then_by-IsOrder f g p q = record {
  swaps = λ a b. ap₂ then_by (p.swaps a b) (q.swaps a b) ∙ then_by-negate (f a b) (g a b);
  alike = λ a b c e.
      let (x, y) = then_by-same (f a b) (g a b) e in
      ap₂ then_by (p.alike a b c x) (q.alike a b c y);
  trans = λ a b c. then_by_trans f p a b c (g a b) (g b c) (g a c) (q.trans a b c);
}

pub compare_ints-IsOrder : IsOrder compare_ints
unfolding compare_ints
compare_ints-IsOrder = record {
  swaps = λ a b. ground arith;
  alike = λ a b c e. ground arith;
  trans = λ a b c x y. ground arith;
}

bytes-IsOrder : IsOrder (λ a b. compare_ints (pos a) (pos b))
bytes-IsOrder = along-IsOrder compare_ints compare_ints-IsOrder pos

strings_swap : (a b : Bytes) → compare_strings b a ≡ negate (compare_strings a b)
unfolding compare_strings
strings_swap [] [] = refl
strings_swap [] (y ∷ ys) = refl
strings_swap (x ∷ xs) [] = refl
strings_swap (x ∷ xs) (y ∷ ys) =
    ap₂ then_by (bytes-IsOrder.swaps x y) (strings_swap xs ys) ∙ then_by-negate _ _

strings_alike :
    (a b c : Bytes) → compare_strings a b ≡ same → compare_strings a c ≡ compare_strings b c
unfolding compare_strings
strings_alike [] [] c e = refl
strings_alike [] (y ∷ ys) c e = cc
strings_alike (x ∷ xs) [] c e = cc
strings_alike (x ∷ xs) (y ∷ ys) [] e = refl
strings_alike (x ∷ xs) (y ∷ ys) (z ∷ zs) e =
    let (p, q) = then_by-same _ _ e in
    ap₂ then_by (bytes-IsOrder.alike x y z p) (strings_alike xs ys zs q)

strings_trans :
    (a b c : Bytes)
    → compare_strings a b ≡ less
    → compare_strings b c ≡ less
    → compare_strings a c ≡ less
unfolding compare_strings
strings_trans [] [] c p q = cc
strings_trans [] (y ∷ ys) [] p q = cc
strings_trans [] (y ∷ ys) (z ∷ zs) p q = refl
strings_trans (x ∷ xs) [] c p q = cc
strings_trans (x ∷ xs) (y ∷ ys) [] p q = cc
strings_trans (x ∷ xs) (y ∷ ys) (z ∷ zs) p q =
    then_by_trans (λ a b. compare_ints (pos a) (pos b)) bytes-IsOrder x y z (compare_strings xs ys)
      (compare_strings ys zs) (compare_strings xs zs) (strings_trans xs ys zs) p q

pub compare_strings-IsOrder : IsOrder compare_strings
compare_strings-IsOrder = record {
  swaps = strings_swap;
  alike = strings_alike;
  trans = strings_trans;
}
