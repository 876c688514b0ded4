-- ===== src/Privsep/Server/Conns.antt =====
-- The map from connection ids to connections, as an association list.
use vasily.Base.{
  Bool, true, false, Option, none, some, List, [], ◌∷◌, if◌then◌else◌, Bool-cases, sym, ◌∙◌, ap,
  ◌⊎◌, ◌≡◌, ◌≢◌, inl, inr, refl, arith,
}
use vasily.Base.Int.{ℤ, pos, negsuc, eqb_ℤ}

abbrev pub Table : Type 0 → Type 0
Table C = List (ℤ × C)

unfoldable pub same_id : ℤ → ℤ → Bool
same_id a b = eqb_ℤ a b

pub same_id_refl : (a : ℤ) → same_id a a ≡ true
unfolding same_id
same_id_refl a = ground arith

pub same_id_eq : (a b : ℤ) → same_id a b ≡ true → a ≡ b
unfolding same_id
same_id_eq (pos a) (pos b) h = ground arith
same_id_eq (pos a) (negsuc b) h = ground arith
same_id_eq (negsuc a) (pos b) h = ground arith
same_id_eq (negsuc a) (negsuc b) h = ground arith

pub same_id_ne : (a b : ℤ) → a ≢ b → same_id a b ≡ false
same_id_ne a b h = elim (Bool-cases (same_id a b)) [
  | inl e ↦ absurd (h (same_id_eq a b e))
  | inr e ↦ e
]

pub same_id_cases : (a b : ℤ) → (a ≡ b) ⊎ (a ≢ b)
same_id_cases a b = elim (Bool-cases (same_id a b)) [
  | inl e ↦ inl (same_id_eq a b e)
  | inr e ↦ inr (λ q. absurd (differ e (ap (same_id a) (sym q) ∙ same_id_refl a)))
]
  where
    differ : {b : Bool} → b ≡ false → b ≡ true → ⊥
    differ p q = cc

module _ {C : Type 0} where
  unfoldable pub lookup : ℤ → Table C → Option C
  lookup id [] = none
  lookup id ((k, c) ∷ t) = if same_id id k then some c else lookup id t

  unfoldable pub delete : ℤ → Table C → Table C
  delete id [] = []
  delete id ((k, c) ∷ t) = if same_id id k then delete id t else (k, c) ∷ delete id t

  unfoldable pub insert : ℤ → C → Table C → Table C
  insert id c t = (id, c) ∷ delete id t

  pub lookup-delete_self : (id : ℤ) (t : Table C) → lookup id (delete id t) ≡ none
  unfolding lookup delete
  lookup-delete_self id [] = refl
  lookup-delete_self id ((k, c) ∷ t) = elim (Bool-cases (same_id id k)) [
    | inl e ↦ rw (e, lookup-delete_self id t)
    | inr e ↦ rw (e, e, lookup-delete_self id t)
  ]

  pub lookup-delete_ne :
      (id other : ℤ) (t : Table C) → id ≢ other → lookup id (delete other t) ≡ lookup id t
  unfolding lookup delete
  lookup-delete_ne id other [] h = refl
  lookup-delete_ne id other ((k, c) ∷ t) h = elim (Bool-cases (same_id other k)) [
    | inl e ↦ rw (
      e,
      same_id_ne id k (λ q. h (q ∙ sym (same_id_eq other k e))),
      lookup-delete_ne id other t h,
    )
    | inr e ↦ rw (e, lookup-delete_ne id other t h)
  ]

  pub lookup-insert_self : (id : ℤ) (c : C) (t : Table C) → lookup id (insert id c t) ≡ some c
  unfolding lookup insert
  lookup-insert_self id c t = rw (same_id_refl id)

  pub lookup-insert_ne :
      (id other : ℤ) (c : C) (t : Table C) → id ≢ other → lookup id (insert other c t) ≡ lookup id t
  unfolding lookup insert
  lookup-insert_ne id other c t h = rw (same_id_ne id other h, lookup-delete_ne id other t h)
