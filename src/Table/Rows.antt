-- ===== src/Table/Rows.antt =====
-- internal/tui/table/table.go: `cmpRows` as an order.
use vasily.Base.{ℕ, zero, suc, Bool, List, [], ◌∷◌, All, ok, ◌>>=◌, ◌≡◌, refl, ap, ◌∙◌}
use vasily.Sortselect.{SortColumn}
use vasily.Table.{
  Comparison, less, same, more, compare_ints, then_by, compare_strings, Row, sort_key, reversed,
  cmp_key, or_next, cmp_rows,
}
use vasily.Table.Orders.{
  IsOrder, reversed-IsOrder, along-IsOrder, then_by-IsOrder, compare_ints-IsOrder,
  compare_strings-IsOrder,
}

-- The columns of `AvailColumns`.
abbrev pub IsSortable : ℕ → Type 0
IsSortable zero = Unit {0}
IsSortable (suc zero) = Unit {0}
IsSortable (suc (suc zero)) = ⊥
IsSortable (suc (suc (suc zero))) = Unit {0}
IsSortable (suc (suc (suc (suc zero)))) = Unit {0}
IsSortable (suc (suc (suc (suc (suc zero))))) = Unit {0}
IsSortable (suc (suc (suc (suc (suc (suc n)))))) = ⊥

abbrev pub AreSortable : List SortColumn → Type 0
AreSortable cols = All (λ (col : SortColumn). IsSortable col.column_id) cols

module _ {F : Type 0} (compare_floats : F → F → Comparison) where
  -- What a column says of two rows.
  abbrev pub column_order : ℕ → Row F → Row F → Comparison
  column_order zero a b = compare_ints a.index b.index
  column_order (suc zero) a b = compare_strings a.display_host b.display_host
  column_order (suc (suc zero)) a b = same
  column_order (suc (suc (suc zero))) a b = compare_ints a.avg_latency b.avg_latency
  column_order (suc (suc (suc (suc zero)))) a b = compare_ints a.std_dev b.std_dev
  column_order (suc (suc (suc (suc (suc zero))))) a b = compare_floats a.pct_loss b.pct_loss
  column_order (suc (suc (suc (suc (suc (suc n)))))) a b = same

  -- The columns one after another.
  abbrev pub row_order : List SortColumn → Row F → Row F → Comparison
  row_order [] a b = same
  row_order (col ∷ cols) a b =
      then_by (reversed col.reverse (column_order col.column_id a b)) (row_order cols a b)

  cmp_key-column_order :
      (n : ℕ) (r : Bool) (a b : Row F)
      → IsSortable n
      → cmp_key compare_floats (sort_key a n) (sort_key b n) r
        ≡ ok (reversed r (column_order n a b))
  unfolding cmp_key sort_key
  cmp_key-column_order zero r a b h = refl
  cmp_key-column_order (suc zero) r a b h = refl
  cmp_key-column_order (suc (suc zero)) r a b h = absurd h
  cmp_key-column_order (suc (suc (suc zero))) r a b h = refl
  cmp_key-column_order (suc (suc (suc (suc zero)))) r a b h = refl
  cmp_key-column_order (suc (suc (suc (suc (suc zero))))) r a b h = refl
  cmp_key-column_order (suc (suc (suc (suc (suc (suc n)))))) r a b h = absurd h

  or_next-then_by : (x y : Comparison) → or_next compare_floats x (ok y) ≡ ok (then_by x y)
  unfolding or_next
  or_next-then_by less y = refl
  or_next-then_by same y = refl
  or_next-then_by more y = refl

  cmp_rows-row_order :
      (cols : List SortColumn) (a b : Row F)
      → AreSortable cols
      → cmp_rows compare_floats cols a b ≡ ok (row_order cols a b)
  unfolding cmp_rows
  cmp_rows-row_order [] a b h = refl
  cmp_rows-row_order (col ∷ cols) a b h =
      ap (λ r. r >>= λ res. or_next compare_floats res (cmp_rows compare_floats cols a b))
        (cmp_key-column_order col.column_id col.reverse a b h.0)
      ∙ ap (or_next compare_floats (reversed col.reverse (column_order col.column_id a b)))
          (cmp_rows-row_order cols a b h.1)
      ∙ or_next-then_by (reversed col.reverse (column_order col.column_id a b)) (row_order cols a b)

  module _ (floats : IsOrder compare_floats) where
    same-IsOrder : IsOrder (λ (a b : Row F). same)
    same-IsOrder = record { swaps = λ a b. refl; alike = λ a b c e. refl; trans = λ a b c p q. p }

    column_order-IsOrder : (n : ℕ) → IsOrder (column_order n)
    column_order-IsOrder zero =
        along-IsOrder compare_ints compare_ints-IsOrder (λ (r : Row F). r.index)
    column_order-IsOrder (suc zero) =
        along-IsOrder compare_strings compare_strings-IsOrder (λ (r : Row F). r.display_host)
    column_order-IsOrder (suc (suc zero)) = same-IsOrder
    column_order-IsOrder (suc (suc (suc zero))) =
        along-IsOrder compare_ints compare_ints-IsOrder (λ (r : Row F). r.avg_latency)
    column_order-IsOrder (suc (suc (suc (suc zero)))) =
        along-IsOrder compare_ints compare_ints-IsOrder (λ (r : Row F). r.std_dev)
    column_order-IsOrder (suc (suc (suc (suc (suc zero))))) =
        along-IsOrder compare_floats floats (λ (r : Row F). r.pct_loss)
    column_order-IsOrder (suc (suc (suc (suc (suc (suc n)))))) = same-IsOrder

    row_order-IsOrder : (cols : List SortColumn) → IsOrder (row_order cols)
    row_order-IsOrder [] = same-IsOrder
    row_order-IsOrder (col ∷ cols) =
        then_by-IsOrder (λ a b. reversed col.reverse (column_order col.column_id a b))
          (row_order cols)
          (reversed-IsOrder (column_order col.column_id) (column_order-IsOrder col.column_id)
            col.reverse)
          (row_order-IsOrder cols)

  -- On columns that `AvailColumns` lists, reversed or not and however many, `cmpRows` does not
  -- panic, and it compares rows as a sort needs it: by the columns one after another, which is an
  -- order of the rows if floats are ordered.
  pub cmp_rows-IsOrder :
      (cols : List SortColumn) (a b : Row F)
      → IsOrder compare_floats
      → AreSortable cols
      → (cmp_rows compare_floats cols a b ≡ ok (row_order cols a b)) × IsOrder (row_order cols)
  cmp_rows-IsOrder cols a b o h = (cmp_rows-row_order cols a b h, row_order-IsOrder o cols)
