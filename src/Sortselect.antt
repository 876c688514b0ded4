-- ===== src/Sortselect.antt =====
-- internal/tui/sortselect/sortselect.go: the choice of sort columns and their order.
pub mod Toggling
pub mod Places
pub mod Accepting
pub mod Opening
mod Tests
use vasily.Base.{
  ℕ, zero, suc, ◌+◌, ◌-◌, Bool, true, false, not, Option, none, some, List, [], ◌∷◌, ◌++◌, map,
  length, get_elem?, set, replicate, ltb, ◌==◌, if◌then◌else◌, Result, ok, panic, ◌>>=◌,
}

pub record SortColumn : Type 0 where
  pub column_id : ℕ
  pub reverse : Bool

-- `sel` is 0 for a column that is not selected, and its place in the order otherwise.
pub record ListItem : Type 0 where
  pub col : SortColumn
  pub sel : ℕ

-- `cursor` is the index of the list's selected item.
pub record Model : Type 0 where
  pub items : List ListItem
  pub n_selected : ℕ
  pub cursor : ℕ

-- `SelectedItem` is nil past the end of the list, and the type assertion on it panics.
abbrev pub at_cursor : Option ListItem → Result ListItem
at_cursor (some it) = ok it
at_cursor none = panic

-- Places above the one that is given up move down.
unfoldable pub lower : ℕ → ListItem → ListItem
lower freed it = if ltb freed it.sel then record it { sel = it.sel - 1 } else it

-- An item that is selected was counted, so the count does not pass 0.
unfoldable pub toggle : Model → ListItem → Model
unfolding lower
toggle m it =
    if it.sel == 0
    then record m {
      n_selected = m.n_selected + 1;
      items = set m.items m.cursor (record it { sel = m.n_selected + 1 });
    }
    else record m {
      n_selected = m.n_selected - 1;
      items = set (map (lower it.sel) m.items) m.cursor (record it { sel = 0 });
    }

unfoldable pub handle_key_toggle : Model → Result Model
unfolding toggle
handle_key_toggle m = do it ← at_cursor (get_elem? m.items m.cursor); ok (toggle m it)

unfoldable pub handle_reverse : Model → Result Model
handle_reverse m = do
  it ← at_cursor (get_elem? m.items m.cursor)
  let turned = record it { col = record it.col { reverse = not it.col.reverse } }
  ok (record m { items = set m.items m.cursor turned })

abbrev pub cleared : ListItem → ListItem
cleared it = record it { sel = 0; col = record it.col { reverse = false } }

unfoldable pub handle_clear : Model → Model
handle_clear m = record m { items = map cleared m.items; n_selected = 0 }

-- `Grow` and the slice to `i + 1`: the places between are zero until they are written.
abbrev pub zero_column : SortColumn
zero_column = record { column_id = 0; reverse = false }

unfoldable pub grown : List SortColumn → ℕ → List SortColumn
grown cols n = cols ++ replicate (n - length cols) zero_column

unfoldable pub place_cols : List SortColumn → List ListItem → List SortColumn
unfolding grown
place_cols cols [] = cols
place_cols cols (it ∷ items) =
    place_cols (if ltb 0 it.sel then set (grown cols it.sel) (it.sel - 1) it.col else cols) items

-- What `handleKeyAccept` hands to the table's `SetSort`.
unfoldable pub handle_key_accept : Model → List SortColumn
unfolding place_cols
handle_key_accept m = place_cols [] m.items

-- The keys that change the selection, and the list's that move its cursor.
pub data Input : Type 0 where
  moves : ℕ → Input
  toggles reverses clears : Input

-- `handleKeyMsg` on these.
unfoldable pub handle_key_msg : Model → Input → Result Model
unfolding handle_key_toggle handle_reverse handle_clear
handle_key_msg m (moves i) = ok (record m { cursor = i })
handle_key_msg m toggles = handle_key_toggle m
handle_key_msg m reverses = handle_reverse m
handle_key_msg m clears = ok (handle_clear m)

unfoldable pub handle_keys : Model → List Input → Result Model
unfolding handle_key_msg
handle_keys m [] = ok m
handle_keys m (x ∷ xs) = do m ← handle_key_msg m x; handle_keys m xs

-- `IndexFunc` for a column, with the column as it is sorted by now.
abbrev pub index_of : ℕ → List SortColumn → ℕ → Option (ℕ × SortColumn)
index_of id [] j = none
index_of id (c ∷ cols) j = if c.column_id == id then some (j, c) else index_of id cols (j + 1)

abbrev pub new_item : ℕ → Option (ℕ × SortColumn) → ListItem
new_item id (some (j, c)) = record { col = c; sel = j + 1 }
new_item id none = record { col = record { column_id = id; reverse = false }; sel = 0 }

-- `New`, for the table's sort columns and those that it can be sorted by.
abbrev pub new_model : List SortColumn → List ℕ → Model
new_model cur avail = record {
  items = map (λ id. new_item id (index_of id cur 0)) avail;
  n_selected = length cur;
  cursor = 0;
}
