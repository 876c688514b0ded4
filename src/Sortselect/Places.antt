-- ===== src/Sortselect/Places.antt =====
-- internal/tui/sortselect/sortselect.go: the numbers of the selected columns.
use vasily.Base.{
  one_if, ℕ, zero, suc, ◌+◌, ◌-◌, ◌≤◌, ◌<◌, ◌==◌, ==_iff, ltb, Bool, true, false, Bool-cases, not,
  Option, none, some, some_injective, List, [], ◌∷◌, map, get_elem?, set, get_elem?-map, ok,
  >>=-eq-ok, ok-injective, ◌≡◌, inl, inr, refl, sym, ap, ap₂, ◌∙◌, arith,
}
use mathlib.Core.Path.{subst}
use vasily.Sortselect.Toggling.{if_true, if_false}
use vasily.Sortselect.{
  ListItem, Model, at_cursor, lower, toggle, handle_key_toggle, handle_reverse, cleared,
  handle_clear, Input, moves, toggles, reverses, clears, handle_key_msg, handle_keys,
}

-- How many items have the place `k`.
abbrev pub count : ℕ → List ListItem → ℕ
count k [] = 0
count k (it ∷ items) = one_if (it.sel == k) + count k items

-- Each place up to the number of selected columns is taken once, and no place behind it.
abbrev pub IsNumbered : Model → Type 0
IsNumbered m = (k : ℕ) → count (suc k) m.items ≡ one_if (ltb k m.n_selected)

count-set :
    (k : ℕ) (xs : List ListItem) (i : ℕ) (a b : ListItem)
    → get_elem? xs i ≡ some a
    → count k (set xs i b) + one_if (a.sel == k) ≡ count k xs + one_if (b.sel == k)
count-set k [] i a b h = cc
count-set k (x ∷ xs) zero a b h =
    let e : one_if (x.sel == k) ≡ one_if (a.sel == k) =
      ap (λ (z : ListItem). one_if (z.sel == k)) (some_injective h) in
    omega (arith, e)
count-set k (x ∷ xs) (suc i) a b h = omega (arith, count-set k xs i a b h)

count-get_elem? :
    (xs : List ListItem) (i : ℕ) (a : ListItem) → get_elem? xs i ≡ some a → 1 ≤ count a.sel xs
count-get_elem? [] i a h = cc
count-get_elem? (x ∷ xs) zero a h =
    let e : x.sel ≡ a.sel = ap (λ (z : ListItem). z.sel) (some_injective h) in
    let q : one_if (x.sel == a.sel) ≡ 1 = ap one_if ((==_iff x.sel a.sel).1 e) in omega (arith, q)
count-get_elem? (x ∷ xs) (suc i) a h = omega (arith, count-get_elem? xs i a h)

-- What is at a place after the places above `s` have moved down.
abbrev moved : Bool → Bool → ℕ → ℕ → ℕ
moved true at x y = x
moved false true x y = x + y
moved false false x y = y

moved-add :
    (b c : Bool) (x y x' y' : ℕ) → moved b c x y + moved b c x' y' ≡ moved b c (x + x') (y + y')
moved-add true c x y x' y' = refl
moved-add false true x y x' y' = omega arith
moved-add false false x y x' y' = refl

above :
    (s k n : ℕ)
    → ltb (suc s) n ≡ true
    → one_if (n - 1 == suc k)
      ≡ moved (ltb k s) (k == s) (one_if (n == suc k)) (one_if (n == suc (suc k)))
above s k n h = ground arith

below :
    (s k n : ℕ)
    → ltb (suc s) n ≡ false
    → one_if (n == suc k)
      ≡ moved (ltb k s) (k == s) (one_if (n == suc k)) (one_if (n == suc (suc k)))
below s k n h = ground arith

moved_zero : (b c : Bool) → moved b c 0 0 ≡ 0
moved_zero true c = refl
moved_zero false true = refl
moved_zero false false = refl

lower_one :
    (s k : ℕ) (it : ListItem)
    → one_if ((lower (suc s) it).sel == suc k)
      ≡ moved (ltb k s) (k == s) (one_if (it.sel == suc k)) (one_if (it.sel == suc (suc k)))
unfolding lower
lower_one s k it = elim (Bool-cases (ltb (suc s) it.sel)) [
  | inl q ↦ rw q (above s k it.sel q)
  | inr q ↦ rw q (below s k it.sel q)
]

count-lower :
    (s k : ℕ) (xs : List ListItem)
    → count (suc k) (map (lower (suc s)) xs)
      ≡ moved (ltb k s) (k == s) (count (suc k) xs) (count (suc (suc k)) xs)
count-lower s k [] = sym (moved_zero (ltb k s) (k == s))
count-lower s k (x ∷ xs) =
    ap₂ (λ a b. a + b) (lower_one s k x) (count-lower s k xs) ∙ moved-add (ltb k s) (k == s) _ _ _ _

select-IsNumbered :
    (m : Model) (a : ListItem)
    → IsNumbered m
    → get_elem? m.items m.cursor ≡ some a
    → a.sel ≡ 0
    → IsNumbered (record m {
      n_selected = m.n_selected + 1;
      items = set m.items m.cursor (record a { sel = m.n_selected + 1 });
    })
select-IsNumbered m a h g z k =
    last m.n_selected k (count (suc k) m.items) _
      (subst
        (λ n.
          count (suc k) (set m.items m.cursor (record a { sel = m.n_selected + 1 }))
            + one_if (n == suc k)
          ≡ count (suc k) m.items + one_if (m.n_selected + 1 == suc k))
        z (count-set (suc k) m.items m.cursor a (record a { sel = m.n_selected + 1 }) g))
      (h k)
  where
    last :
        (n k c d : ℕ)
        → d + one_if (0 == suc k) ≡ c + one_if (n + 1 == suc k)
        → c ≡ one_if (ltb k n)
        → d ≡ one_if (ltb k (n + 1))
    last n k c d e f = ground arith

-- The arithmetic of giving up the place `s + 1` of `n`.
given_up :
    (n s k before here above after : ℕ)
    → here ≡ moved (ltb k s) (k == s) before above
    → before ≡ one_if (ltb k n)
    → above ≡ one_if (ltb (suc k) n)
    → s < n
    → after + one_if (suc s == suc k) ≡ here + one_if (0 == suc k)
    → after ≡ one_if (ltb k (n - 1))
given_up n s k before here above after p q r l e = ground arith

lower_self : (s : ℕ) (a : ListItem) → a.sel ≡ suc s → (lower (suc s) a).sel ≡ suc s
unfolding lower
lower_self s a z = rw (self (suc s) a.sel z) z
  where
    self : (s n : ℕ) → n ≡ s → ltb s n ≡ false
    self s n e = ground arith

give_up-IsNumbered :
    (m : Model) (a : ListItem) (s : ℕ)
    → IsNumbered m
    → get_elem? m.items m.cursor ≡ some a
    → a.sel ≡ suc s
    → IsNumbered (record m {
      n_selected = m.n_selected - 1;
      items = set (map (lower (suc s)) m.items) m.cursor (record a { sel = 0 });
    })
unfolding lower
give_up-IsNumbered m a s h g z k =
    let b = lower (suc s) a in
    let stays : b.sel ≡ suc s = lower_self s a z in
    let seen : 1 ≤ count (suc s) m.items =
      subst (λ n. 1 ≤ count n m.items) z (count-get_elem? m.items m.cursor a g) in
    let e =
      subst
        (λ n.
          count (suc k) (set (map (lower (suc s)) m.items) m.cursor (record a { sel = 0 }))
            + one_if (n == suc k)
          ≡ count (suc k) (map (lower (suc s)) m.items) + one_if (0 == suc k))
        stays
        (count-set (suc k) (map (lower (suc s)) m.items) m.cursor b (record a { sel = 0 })
          (get_elem?-map (lower (suc s)) m.items m.cursor g)) in
    given_up m.n_selected s k (count (suc k) m.items) (count (suc k) (map (lower (suc s)) m.items))
      (count (suc (suc k)) m.items) _ (count-lower s k m.items) (h k) (h (suc k))
      (inside s m.n_selected (count (suc s) m.items) seen (h s)) e
  where
    inside : (s n c : ℕ) → 1 ≤ c → c ≡ one_if (ltb s n) → s < n
    inside s n c l e = ground arith

toggle-IsNumbered :
    (m : Model) (a : ListItem) (n : ℕ)
    → a.sel ≡ n
    → IsNumbered m
    → get_elem? m.items m.cursor ≡ some a
    → IsNumbered (toggle m a)
unfolding toggle
toggle-IsNumbered m a zero z h g =
    subst IsNumbered (sym (if_true (a.sel == 0) _ _ ((==_iff a.sel 0).1 z)))
      (select-IsNumbered m a h g z)
toggle-IsNumbered m a (suc s) z h g =
    subst IsNumbered (sym (if_false (a.sel == 0) _ _ (ap (λ n. n == 0) z ∙ not_zero s))) (
      subst
        (λ n. IsNumbered (record m {
          n_selected = m.n_selected - 1;
          items = set (map (lower n) m.items) m.cursor (record a { sel = 0 });
        }))
        (sym z) (give_up-IsNumbered m a s h g z))
  where
    not_zero : (s : ℕ) → (suc s == 0) ≡ false
    not_zero s = ground arith

reversed-IsNumbered :
    (m : Model) (a : ListItem) (r : Bool)
    → IsNumbered m
    → get_elem? m.items m.cursor ≡ some a
    → IsNumbered (record m {
      items = set m.items m.cursor (record a { col = record a.col { reverse = r } });
    })
reversed-IsNumbered m a r h g k =
    let e =
      count-set (suc k) m.items m.cursor a (record a { col = record a.col { reverse = r } }) g in
    omega (arith, e, h k)

cleared-count : (k : ℕ) (xs : List ListItem) → count (suc k) (map cleared xs) ≡ 0
cleared-count k [] = refl
cleared-count k (x ∷ xs) = omega (arith, first k, cleared-count k xs)
  where
    first : (k : ℕ) → one_if (0 == suc k) ≡ 0
    first k = ground arith

clear-IsNumbered : (m : Model) → IsNumbered (handle_clear m)
unfolding handle_clear
clear-IsNumbered m k = cleared-count k m.items ∙ none k
  where
    none : (k : ℕ) → 0 ≡ one_if (ltb k 0)
    none k = ground arith

at_cursor-eq : (o : Option ListItem) (a : ListItem) → at_cursor o ≡ ok a → o ≡ some a
at_cursor-eq (some it) a h = ap some (ok-injective h)
at_cursor-eq none a h = cc

msg-IsNumbered :
    (m : Model) (x : Input) (m' : Model) → IsNumbered m → handle_key_msg m x ≡ ok m' → IsNumbered m'
unfolding handle_key_msg handle_key_toggle handle_reverse
msg-IsNumbered m (moves i) m' h e = subst IsNumbered (ok-injective e) h
msg-IsNumbered m clears m' h e = subst IsNumbered (ok-injective e) (clear-IsNumbered m)
msg-IsNumbered m toggles m' h e =
    let (a, q, k) = >>=-eq-ok (at_cursor (get_elem? m.items m.cursor)) _ e in
    subst IsNumbered (ok-injective k)
      (toggle-IsNumbered m a a.sel refl h (at_cursor-eq (get_elem? m.items m.cursor) a q))
msg-IsNumbered m reverses m' h e =
    let (a, q, k) = >>=-eq-ok (at_cursor (get_elem? m.items m.cursor)) _ e in
    subst IsNumbered (ok-injective k) (
      reversed-IsNumbered m a (not a.col.reverse) h (at_cursor-eq (get_elem? m.items m.cursor) a q))

-- However columns are selected, given up, reversed and cleared, from a selection with the places 1,
-- 2, 3, ... taken once each the keys lead to such a selection, as many places as columns are
-- counted.
pub keys-IsNumbered :
    (xs : List Input) (m m' : Model) → IsNumbered m → handle_keys m xs ≡ ok m' → IsNumbered m'
unfolding handle_keys
keys-IsNumbered [] m m' h e = subst IsNumbered (ok-injective e) h
keys-IsNumbered (x ∷ xs) m m' h e =
    let (b, q, k) = >>=-eq-ok (handle_key_msg m x) _ e in
    keys-IsNumbered xs b m' (msg-IsNumbered m x b h q) k
