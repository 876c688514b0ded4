-- ===== src/Tui/Views.antt =====
-- internal/tui/tui.go: View.
use vasily.Base.{
  ℕ, ◌≤◌, Bool, true, false, one_if, Option, none, some, List, [], ◌∷◌, length, get_elem?,
  remove_at, count_if, count_if-remove_at, remove_at-none, Result, ok, panic, ◌>>=◌, ◌⊎◌, >>=-eq-ok,
  ok-injective, ◌≡◌, inl, inr, refl, ap, arith,
}
use vasily.Backend.{Bytes}
use vasily.Tui.{
  Screen, main_screen, sort_select, no_screen, Msg, Action, Program, Outside, widget_cmds,
  handle_key,
}
use vasily.Tui.Commands.{
  found_addr, start_trace, start_pinger, init_host, init_hosts, update_msg, start, update, Event,
  runs, handles, presses, run_taken, handle_taken, step, run,
}
use vasily.Sortselect.{SortColumn, Model}
use vasily.Tui.Commands.{new_program, init, update_rows}
use vasily.Tui.Blanks.{
  is_blank, is_blank_cmd, is_blank_msg, blanks, widgets-blank, start-blanks, key-AddsNone,
  run_cmd-blanks, start_pinger-AddsNone, update_msg-blanks,
}

abbrev pub view_of : {V : Type 0} → V → V → Screen → Result V
view_of table_view sort_view main_screen = ok table_view
view_of table_view sort_view sort_select = ok sort_view
view_of table_view sort_view no_screen = panic

-- `View`, with the views of the screens.
unfoldable pub view : {V : Type 0} → (V → V) → V → V → Program → Result V
view render table_view sort_view m = do v ← view_of table_view sort_view m.focus; ok (render v)

module _ (out : Outside) where
  run_taken-blanks :
      (m m' : Program) (i : ℕ) (o : Option Action)
      → get_elem? m.cmds i ≡ o
      → run_taken out o (record m { cmds = remove_at m.cmds i }) ≡ ok m'
      → blanks m' ≤ blanks m
  run_taken-blanks m m' i none g h =
      omega
        (arith, ap blanks (ok-injective h), ap (count_if is_blank_cmd) (remove_at-none m.cmds i g))
  run_taken-blanks m m' i (some a) g h = omega (
    arith,
    run_cmd-blanks out a (record m { cmds = remove_at m.cmds i }) m' h,
    count_if-remove_at is_blank_cmd m.cmds i a g,
  )

  handle_taken-blanks :
      (m m' : Program) (i : ℕ) (o : Option Msg)
      → get_elem? m.msgs i ≡ o
      → handle_taken out o (record m { msgs = remove_at m.msgs i }) ≡ ok m'
      → blanks m' ≤ blanks m
  unfolding update
  handle_taken-blanks m m' i none g h =
      omega
        (arith, ap blanks (ok-injective h), ap (count_if is_blank_msg) (remove_at-none m.msgs i g))
  handle_taken-blanks m m' i (some msg) g h =
      let rest = record m { msgs = remove_at m.msgs i } in
      let (r, q, e) = >>=-eq-ok (update_msg out msg rest) _ h in
      let more = out.widgets (length rest.msgs) in
      omega (
        arith,
        ap blanks (ok-injective e),
        start-blanks r (widget_cmds more),
        widgets-blank more,
        update_msg-blanks out msg rest r q,
        count_if-remove_at is_blank_msg m.msgs i msg g,
      )

  step-blanks : (m m' : Program) (e : Event) → step out m e ≡ ok m' → blanks m' ≤ blanks m
  unfolding step
  step-blanks m m' (runs i) h = run_taken-blanks m m' i (get_elem? m.cmds i) refl h
  step-blanks m m' (handles i) h = handle_taken-blanks m m' i (get_elem? m.msgs i) refl h
  step-blanks m m' (presses k) h =
      let (r, q, e) = >>=-eq-ok (handle_key (out.list_cursor m.sort.cursor) m k) _ h in
      omega (
        arith,
        ap blanks (ok-injective e),
        start-blanks r [],
        key-AddsNone (out.list_cursor m.sort.cursor) m k r q,
      )

  run-blanks : (es : List Event) (m m' : Program) → run out m es ≡ ok m' → blanks m' ≤ blanks m
  unfolding run
  run-blanks [] m m' h = omega (arith, ap blanks (ok-injective h))
  run-blanks (e ∷ es) m m' h =
      let (b, q, k) = >>=-eq-ok (step out m e) _ h in
      omega (arith, step-blanks m b e q, run-blanks es b m' k)

  init_host-blanks :
      (trace : Bool) (h : Bytes) (m m' : Program)
      → init_host out trace h m ≡ ok m'
      → blanks m' ≤ blanks m
  unfolding init_host start_trace
  init_host-blanks true h m m' e = omega (
    arith,
    ap blanks (ok-injective e),
    start-blanks (start_trace out (found_addr (out.lookup h)) m) [],
  )
  init_host-blanks false h m m' e =
      let (r, q, e) = >>=-eq-ok (start_pinger out h 0 (found_addr (out.lookup h)) m) _ e in
      omega (
        arith,
        ap blanks (ok-injective e),
        start-blanks r [],
        start_pinger-AddsNone out h 0 (found_addr (out.lookup h)) m r q,
      )

  init_hosts-blanks :
      (trace : Bool) (hosts : List Bytes) (m m' : Program)
      → init_hosts out trace hosts m ≡ ok m'
      → blanks m' ≤ blanks m
  unfolding init_hosts
  init_hosts-blanks trace [] m m' h = omega (arith, ap blanks (ok-injective h))
  init_hosts-blanks trace (x ∷ hosts) m m' h =
      let (b, q, k) = >>=-eq-ok (init_host out trace x m) _ h in
      omega (arith, init_host-blanks trace x m b q, init_hosts-blanks trace hosts b m' k)

view-shown :
    {V : Type 0} (render : V → V) (table_view sort_view : V) (screen : Screen)
    → is_blank screen ≡ false
    → ((do v ← view_of table_view sort_view screen; ok (render v)) ≡ ok (render table_view))
      ⊎ ((do v ← view_of table_view sort_view screen; ok (render v)) ≡ ok (render sort_view))
view-shown render table_view sort_view main_screen h = inl refl
view-shown render table_view sort_view sort_select h = inr refl
view-shown render table_view sort_view no_screen h = cc

-- `View` shows the table or the sort screen in every state that the program comes to: whatever hosts
-- it is started with, and in whatever order commands end, messages are handled and keys are
-- pressed, it does not meet another screen, on which it panics.
pub run-view :
    {V : Type 0} (render : V → V) (table_view sort_view : V) (out : Outside) (trace : Bool)
    (hosts : List Bytes) (cols : List SortColumn) (sort : Model) (es : List Event) (m0 m : Program)
    → init out trace hosts (new_program cols sort) ≡ ok m0
    → run out m0 es ≡ ok m
    → (view render table_view sort_view m ≡ ok (render table_view))
      ⊎ (view render table_view sort_view m ≡ ok (render sort_view))
unfolding init view
run-view render table_view sort_view out trace hosts cols sort es m0 m h r =
    view-shown render table_view sort_view m.focus (
      shown (is_blank m.focus) (
        omega (
          arith,
          run-blanks out es m0 m r,
          init_hosts-blanks out trace hosts (start (update_rows out (new_program cols sort)) []) m0
              h,
        )))
  where
    shown : (b : Bool) → one_if b ≤ 0 → b ≡ false
    shown true l = absurd (omega arith)
    shown false l = refl
