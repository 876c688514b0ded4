-- ===== src/Sortselect/Tests.antt =====
-- Selecting among three columns.
use vasily.Base.{
  ℕ, zero, suc, length, get_elem?, none, some, ◌⊎◌, true, false, [], ◌∷◌, ◌≡◌, refl, arith,
}
use vasily.Sortselect.{
  ListItem, Model, moves, toggles, reverses, handle_keys, new_model, handle_key_accept,
}
use vasily.Sortselect.Places.{IsNumbered}
use vasily.Sortselect.Accepting.{IsPlaced, IsTaken, keys-accept}
use vasily.Sortselect.Opening.{ids, IsDistinct, IsOffered, new_model-accept}
use vasily.Table.{default_sort, avail_columns, set_sort}

abbrev column : ℕ → ℕ → ListItem
column id sel = record { col = record { column_id = id; reverse = false }; sel = sel }

-- The last column comes first in the order, then the first; the cursor is on the middle one.
abbrev two_selected : Model
two_selected = record {
  items = column 0 2 ∷ column 1 0 ∷ column 3 1 ∷ [];
  n_selected = 2;
  cursor = 1;
}

accepted_in_order :
    handle_key_accept two_selected
    ≡ record { column_id = 3; reverse = false } ∷ record { column_id = 0; reverse = false } ∷ []
unfolding handle_key_accept
accepted_in_order = refl

-- The table's default: by index, then by host.
abbrev by_default : Model
by_default = new_model default_sort avail_columns

by_default-IsNumbered : IsNumbered by_default
by_default-IsNumbered zero = refl
by_default-IsNumbered (suc zero) = refl
by_default-IsNumbered (suc (suc k)) = ground arith

-- The index is given up, and the average latency selected, in reverse.
abbrev by_host_and_latency : Model
by_host_and_latency = record {
  items =
      record { col = record { column_id = 0; reverse = false }; sel = 0 }
      ∷ record { col = record { column_id = 1; reverse = false }; sel = 1 }
      ∷ record { col = record { column_id = 3; reverse = true }; sel = 2 }
      ∷ record { col = record { column_id = 4; reverse = false }; sel = 0 }
      ∷ record { col = record { column_id = 5; reverse = false }; sel = 0 }
      ∷ [];
  n_selected = 2;
  cursor = 2;
}

-- After the same keys the average latency, in reverse, is the second of two columns.
keys-accept_example :
    (length (handle_key_accept by_host_and_latency) ≡ 2)
    × (set_sort (handle_key_accept by_host_and_latency) ≡ handle_key_accept by_host_and_latency)
    × ((get_elem? by_host_and_latency.items 2 ≡ none)
        ⊎ ((it : ListItem) × (get_elem? by_host_and_latency.items 2 ≡ some it)
            × IsPlaced (handle_key_accept by_host_and_latency) it))
    × IsTaken by_host_and_latency 1
unfolding handle_keys
keys-accept_example =
    keys-accept (toggles ∷ moves 2 ∷ toggles ∷ reverses ∷ []) by_default by_host_and_latency 1 2
      by_default-IsNumbered refl

default_sort-IsDistinct : IsDistinct (ids default_sort)
default_sort-IsDistinct id = ground arith

default_sort-IsOffered : IsOffered avail_columns default_sort
default_sort-IsOffered = (refl, (refl, tt))

new_model-accept_example : handle_key_accept by_default ≡ default_sort
new_model-accept_example =
    new_model-accept default_sort avail_columns default_sort-IsDistinct default_sort-IsOffered
