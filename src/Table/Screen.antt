-- ===== src/Table/Screen.antt =====
-- internal/tui/table/table.go: what `View` joins after any messages.
use vasily.Base.{
  ℕ, ◌+◌, ◌-◌, ◌≤◌, ok, sym, ap₂, Bool, true, false, not, List, [], ◌∷◌, All, ◌≡◌, ◌⊎◌, inl, inr,
  refl, ap, ◌∙◌, arith,
}
use mathlib.Core.Path.{subst}
use vasily.Base.Int.{ℤ, pos, pos_part, ◌-ℤ◌}
use vasily.Table.Layout.{Block, recalc_column_widths, header_view}
use vasily.Table.Columns.{IsNearest, IsFull, span, header_view-IsFull}
use vasily.Table.Sizes.{
  Sizes, SizeMsg, window_size, key_msg, other_msg, new_sizes, header_part, viewport_part, help_part,
  joined, update_sizes, handle_window_size, handle_size_key, update, update_all, view,
}

-- The size of the terminal, as the last message says.
abbrev pub last_size : List SizeMsg → ℤ × ℤ → ℤ × ℤ
last_size [] size = size
last_size (window_size width height ∷ msgs) size = last_size msgs (width, height)
last_size (key_msg is_help ∷ msgs) size = last_size msgs size
last_size (other_msg ∷ msgs) size = last_size msgs size

-- Whether the full help is shown: the key of the help turns it over, any other key puts it away.
abbrev pub shows_full : List SizeMsg → Bool → Bool
shows_full [] full = full
shows_full (window_size width height ∷ msgs) full = shows_full msgs full
shows_full (key_msg true ∷ msgs) full = shows_full msgs (not full)
shows_full (key_msg false ∷ msgs) full = shows_full msgs false
shows_full (other_msg ∷ msgs) full = shows_full msgs full

abbrev pub is_other : SizeMsg → Bool
is_other other_msg = true
is_other _ = false

below_parts : (h k : ℕ) → k + 1 ≤ h → pos h -ℤ pos k -ℤ pos 1 ≡ pos (h - k - 1)
unfolding ◌-ℤ◌
below_parts h k l = ground arith

no_size :
    (msgs : List SizeMsg) (size : ℤ × ℤ)
    → All (λ msg. is_other msg ≡ true) msgs
    → last_size msgs size ≡ size
no_size [] size a = refl
no_size (other_msg ∷ msgs) size a = no_size msgs size a.1
no_size (window_size w h ∷ msgs) size a = cc
no_size (key_msg b ∷ msgs) size a = cc

module _ (share : ℕ → ℕ → ℤ → ℤ) (help_height : Bool → ℤ → ℤ) where
  -- The parts as the terminal's size has them.
  record IsLaid (t : Sizes) : Type 0 where
    at_width : t.vp_width ≡ t.width
    columns : t.col_widths ≡ recalc_column_widths share t.width
    help_at_width : t.help_width ≡ t.width
    at_height : t.vp_height ≡ t.height -ℤ help_height t.full_help t.width -ℤ pos 1

  record IsSized (size : ℤ × ℤ) (full : Bool) (t : Sizes) : Type 0 where
    at_size : (t.width, t.height) ≡ size
    helped : t.full_help ≡ full
    laid : (t.ready ≡ false) ⊎ (t.ready ≡ true) × IsLaid t

  update_sizes-IsLaid : (t : Sizes) → IsLaid (update_sizes share help_height t)
  unfolding update_sizes
  update_sizes-IsLaid t = record {
    at_width = refl;
    columns = refl;
    help_at_width = refl;
    at_height = refl;
  }

  update-IsSized :
      (msg : SizeMsg) (size : ℤ × ℤ) (full : Bool) (t : Sizes)
      → IsSized size full t
      → IsSized
          (last_size (msg ∷ []) size)
          (shows_full (msg ∷ []) full)
          (update share help_height msg t)
  unfolding update handle_window_size handle_size_key update_sizes
  update-IsSized (window_size width height) size full t v = record {
    at_size = refl;
    helped = v.helped;
    laid = inr (refl, update_sizes-IsLaid (record t { width = width; height = height }));
  }
  update-IsSized (key_msg true) size full t v = record {
    at_size = v.at_size;
    helped = ap not v.helped;
    laid = inr (refl, update_sizes-IsLaid (record t { full_help = not t.full_help }));
  }
  update-IsSized (key_msg false) size full t v = record {
    at_size = v.at_size;
    helped = refl;
    laid = inr (refl, update_sizes-IsLaid (record t { full_help = false }));
  }
  update-IsSized other_msg size full t v = v

  update_all-IsSized :
      (msgs : List SizeMsg) (size : ℤ × ℤ) (full : Bool) (t : Sizes)
      → IsSized size full t
      → IsSized (last_size msgs size) (shows_full msgs full) (update_all share help_height msgs t)
  unfolding update_all
  update_all-IsSized [] size full t v = v
  update_all-IsSized (window_size w h ∷ msgs) size full t v =
      update_all-IsSized msgs (w, h) full _ (update-IsSized (window_size w h) size full t v)
  update_all-IsSized (key_msg true ∷ msgs) size full t v =
      update_all-IsSized msgs size (not full) _ (update-IsSized (key_msg true) size full t v)
  update_all-IsSized (key_msg false ∷ msgs) size full t v =
      update_all-IsSized msgs size false _ (update-IsSized (key_msg false) size full t v)
  update_all-IsSized (other_msg ∷ msgs) size full t v =
      update_all-IsSized msgs size full _ (update-IsSized other_msg size full t v)

  -- Only other messages leave the table without sizes.
  unready :
      (msgs : List SizeMsg) (t : Sizes)
      → (update_all share help_height msgs t).ready ≡ false
      → (t.ready ≡ false) × All (λ msg. is_other msg ≡ true) msgs
  unfolding update_all update handle_window_size handle_size_key update_sizes
  unready [] t h = (h, tt)
  unready (window_size w h ∷ msgs) t e =
      cc (unready msgs (update share help_height (window_size w h) t) e).0
  unready (key_msg true ∷ msgs) t e =
      cc (unready msgs (update share help_height (key_msg true) t) e).0
  unready (key_msg false ∷ msgs) t e =
      cc (unready msgs (update share help_height (key_msg false) t) e).0
  unready (other_msg ∷ msgs) t e = let (r, a) = unready msgs t e in (r, (refl, a))

  joined_at :
      (t : Sizes) (w h k : ℕ) (full : Bool) (hs : List Block)
      → IsSized (pos w, pos h) full t
      → IsLaid t
      → help_height full (pos w) ≡ pos k
      → k + 1 ≤ h
      → joined t hs
        ≡ header_part hs ∷ viewport_part (pos w) (pos (h - k - 1)) ∷ help_part full (pos w) ∷ []
  joined_at t w h k full hs v l e m =
      let at_w : t.width ≡ pos w = ap (λ (z : ℤ × ℤ). z.0) v.at_size in
      let at_h : t.height ≡ pos h = ap (λ (z : ℤ × ℤ). z.1) v.at_size in
      let rest : t.vp_height ≡ pos (h - k - 1) =
        l.at_height
        ∙ ap₂ (λ a b. a -ℤ help_height b t.width -ℤ pos 1) at_h v.helped
        ∙ ap (λ a. pos h -ℤ help_height full a -ℤ pos 1) at_w
        ∙ ap (λ a. pos h -ℤ a -ℤ pos 1) e
        ∙ below_parts h k m in
      ap₂ (λ a b. header_part hs ∷ viewport_part a b ∷ help_part t.full_help t.help_width ∷ [])
        (l.at_width ∙ at_w) rest
      ∙ ap₂ (λ a b. header_part hs ∷ viewport_part (pos w) (pos (h - k - 1)) ∷ help_part a b ∷ [])
          v.helped (l.help_at_width ∙ at_w)

-- Whatever messages the table gets, in whatever order, if the last size is w columns, at least 33,
-- and h lines, more than the k lines of the help as the keys have left it: `View` does not panic. It
-- joins a header whose columns are full and together w columns wide, a viewport as wide, and that
-- help; the header's line, the lines of the viewport and those of the help are h. Parts are rounded
-- to the nearest whole column.
pub update_all-view :
    (share : ℕ → ℕ → ℤ → ℤ) (help_height : Bool → ℤ → ℤ) (msgs : List SizeMsg) (w h k : ℕ)
    → IsNearest share
    → last_size msgs (pos 0, pos 0) ≡ (pos w, pos h)
    → help_height (shows_full msgs false) (pos w) ≡ pos k
    → 33 ≤ w
    → k + 1 ≤ h
    → (hs : List Block) × (n : ℕ) × (view (update_all share help_height msgs new_sizes)
        ≡ ok (
            header_part hs
            ∷ viewport_part (pos w) (pos n)
            ∷ help_part (shows_full msgs false) (pos w)
            ∷ []))
      × All IsFull hs
      × (span hs ≡ w)
      × (1 + n + k ≡ h)
unfolding view
update_all-view share help_height msgs w h k near size help wide high =
    let t = update_all share help_height msgs new_sizes in
    let v =
      update_all-IsSized share help_height msgs (pos 0, pos 0) false new_sizes
        (record { at_size = refl; helped = refl; laid = inl refl }) in
    let v' = subst (λ z. IsSized share help_height z (shows_full msgs false) t) size v in
    let (hs, e, full, across) = header_view-IsFull share w near wide in
    elim v.laid [
      | inl no_yet ↦
          let zero_size =
            sym (no_size msgs (pos 0, pos 0) (unready share help_height msgs new_sizes no_yet).1)
            ∙ size in
          absurd (omega (arith, wide, ap (λ (z : ℤ × ℤ). pos_part z.0) zero_size))
      | inr (r, l) ↦
          let at_w : t.width ≡ pos w = ap (λ (z : ℤ × ℤ). z.0) v'.at_size in
          let header : header_view t.col_widths ≡ ok hs =
            ap header_view (l.columns ∙ ap (recalc_column_widths share) at_w) ∙ e in
          (
            hs,
            h - k - 1,
            rw (r, header)
                (ap ok
                  (joined_at share help_height t w h k (shows_full msgs false) hs v' l help high)),
            full,
            across,
            omega (arith, high),
          )
    ]
