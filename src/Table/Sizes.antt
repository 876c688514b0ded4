-- ===== src/Table/Sizes.antt =====
-- internal/tui/table/table.go with internal/tui/help/help.go: the sizes of the parts of the screen.
-- The viewport scrolls by itself.
use vasily.Base.{
  ℕ, Result, ok, ◌>>=◌, Bool, true, false, not, List, [], ◌∷◌, replicate, length, if◌then◌else◌,
}
use vasily.Base.Int.{ℤ, pos, ◌-ℤ◌}
use vasily.Table.Layout.{Block, column_specs, recalc_column_widths, header_view}

-- The fields of `Model` that tell the sizes; the help has its `ShowAll` and its width.
pub record Sizes : Type 0 where
  pub ready : Bool
  pub width : ℤ
  pub height : ℤ
  pub vp_width : ℤ
  pub vp_height : ℤ
  pub col_widths : List ℤ
  pub full_help : Bool
  pub help_width : ℤ

-- `New`
abbrev pub new_sizes : Sizes
new_sizes = record {
  ready = false;
  width = pos 0;
  height = pos 0;
  vp_width = pos 0;
  vp_height = pos 0;
  col_widths = replicate (length column_specs) (pos 0);
  full_help = false;
  help_width = pos 0;
}

-- The messages that `Update` has a case for. A key is told by whether it is that of the help.
pub data SizeMsg : Type 0 where
  window_size : ℤ → ℤ → SizeMsg
  key_msg : Bool → SizeMsg
  other_msg : SizeMsg

-- What `View` joins: the line of the header, the viewport with its size, and the help.
pub data ScreenPart : Type 0 where
  header_part : List Block → ScreenPart
  viewport_part : ℤ → ℤ → ScreenPart
  help_part : Bool → ℤ → ScreenPart

abbrev pub joined : Sizes → List Block → List ScreenPart
joined t hs =
    header_part hs ∷ viewport_part t.vp_width t.vp_height ∷ help_part t.full_help t.help_width ∷ []

-- `help_height full width` is how high the help is drawn; `share` rounds as in the layout.
module _ (share : ℕ → ℕ → ℤ → ℤ) (help_height : Bool → ℤ → ℤ) where
  -- `GetHeight`
  abbrev pub get_height : Sizes → ℤ
  get_height t = help_height t.full_help t.help_width

  -- The viewport's new height, once the help has its width.
  abbrev pub with_viewport : Sizes → Sizes
  with_viewport t = record t {
    ready = true;
    vp_width = t.width;
    vp_height = t.height -ℤ get_height t -ℤ pos 1;
    col_widths = recalc_column_widths share t.width;
  }

  unfoldable pub update_sizes : Sizes → Sizes
  update_sizes t = with_viewport (record t { help_width = t.width })

  unfoldable pub handle_window_size : ℤ → ℤ → Sizes → Sizes
  unfolding update_sizes
  handle_window_size width height t = update_sizes (record t { width = width; height = height })

  -- Any key puts the full help away, and the key of the help shows it if it was away.
  unfoldable pub handle_size_key : Bool → Sizes → Sizes
  unfolding update_sizes
  handle_size_key is_help t =
      let away = update_sizes (record t { full_help = false }) in
      if is_help then update_sizes (record away { full_help = not t.full_help }) else away

  unfoldable pub update : SizeMsg → Sizes → Sizes
  unfolding handle_window_size handle_size_key
  update (window_size width height) t = handle_window_size width height t
  update (key_msg is_help) t = handle_size_key is_help t
  update other_msg t = t

  unfoldable pub update_all : List SizeMsg → Sizes → Sizes
  unfolding update
  update_all [] t = t
  update_all (msg ∷ msgs) t = update_all msgs (update msg t)

-- `View`
unfoldable pub view : Sizes → Result (List ScreenPart)
view t = if t.ready then (do hs ← header_view t.col_widths; ok (joined t hs)) else ok []
