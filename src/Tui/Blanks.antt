-- ===== src/Tui/Blanks.antt =====
-- internal/tui/tui.go: the screens that a program has or is to have, counted through its steps.
use vasily.Base.{
  ℕ, zero, suc, ◌+◌, ◌≤◌, Bool, true, false, one_if, Option, none, some, List, [], ◌∷◌, ◌++◌,
  get_elem?, count_if, count_if-append, if-eq, Result, ok, err, panic, >>=-eq-ok, ok-injective, ◌≡◌,
  inl, inr, refl, sym, ap, ◌∙◌, arith,
}
use mathlib.Core.Path.{subst}
use vasily.Backend.{Addr, Bytes}
use vasily.Tracer.{Step}
use vasily.Tui.{
  Screen, main_screen, sort_select, no_screen, Key, Row, Tracing, Msg, trace_step_msg,
  update_rows_msg, error_msg, other_msg, go_msg, Action, gives_error, ticks, quits, suspends,
  clears_screen, other_cmd, runs_trace, next_trace, goes, Program, Outside, widget_cmds, table_key,
  sort_key_cmds, global_key, screen_key, handle_key, sort_update,
}
use vasily.Tui.Commands.{
  start_pinger, with_pinger, update_trace_step, update_msg, start, say, deliver_step, receive_step,
  end_trace, run_cmd,
}
use vasily.Tui.Handled.{key-Same}

abbrev pub is_blank : Screen → Bool
is_blank no_screen = true
is_blank _ = false

abbrev pub is_blank_cmd : Action → Bool
is_blank_cmd (goes screen) = is_blank screen
is_blank_cmd _ = false

abbrev pub is_blank_msg : Msg → Bool
is_blank_msg (go_msg screen) = is_blank screen
is_blank_msg _ = false

-- How often the program has, or is to have, a screen that is none of nav's.
abbrev pub blanks : Program → ℕ
blanks m = one_if (is_blank m.focus) + count_if is_blank_cmd m.cmds + count_if is_blank_msg m.msgs

pub widgets-blank : (n : ℕ) → count_if is_blank_cmd (widget_cmds n) ≡ 0
widgets-blank zero = refl
widgets-blank (suc n) = omega (arith, widgets-blank n)

pub start-blanks :
    (r : Program × List Action) (more : List Action)
    → blanks (start r more) ≡ blanks r.0 + count_if is_blank_cmd r.1 + count_if is_blank_cmd more
start-blanks r more = omega (
  arith,
  count_if-append is_blank_cmd r.0.cmds (r.1 ++ more),
  count_if-append is_blank_cmd r.1 more,
)

say-blanks : (msg : Msg) (m : Program) → blanks (say msg m) ≡ blanks m + one_if (is_blank_msg msg)
say-blanks msg m = omega (arith, count_if-append is_blank_msg m.msgs (msg ∷ []))

-- What a part of the program makes of it, with the commands that it gives.
abbrev pub AddsNone : Program → Program × List Action → Type 0
AddsNone m r = blanks r.0 + count_if is_blank_cmd r.1 ≤ blanks m

abbrev pub AddsUpTo : ℕ → Program → Program × List Action → Type 0
AddsUpTo n m r = blanks r.0 + count_if is_blank_cmd r.1 ≤ blanks m + n

sort_cmds-blank : (k : Key) → count_if is_blank_cmd (sort_key_cmds k) ≡ 0
unfolding sort_key_cmds
sort_cmds-blank k = ground arith

table_cmds-blank : (k : Key) → count_if is_blank_cmd (table_key k) ≡ 0
unfolding table_key
table_cmds-blank k = ground arith

global_cmds-blank : (k : Key) → count_if is_blank_cmd (global_key k) ≡ 0
unfolding global_key
global_cmds-blank k = ground arith

screen_cmds-blank :
    (cursor : ℕ → ℕ) (m : Program) (k : Key) (screen : Screen) (r : Program × List Action)
    → screen_key cursor m k screen ≡ ok r
    → count_if is_blank_cmd r.1 ≡ 0
unfolding screen_key
screen_cmds-blank cursor m k main_screen r h =
    ap (λ (z : Program × List Action). count_if is_blank_cmd z.1) (sym (ok-injective h))
    ∙ table_cmds-blank k
screen_cmds-blank cursor m k no_screen r h =
    ap (λ (z : Program × List Action). count_if is_blank_cmd z.1) (sym (ok-injective h))
screen_cmds-blank cursor m k sort_select r h =
    let (m2, q, e) = >>=-eq-ok (sort_update cursor m k) _ h in
    ap (λ (z : Program × List Action). count_if is_blank_cmd z.1) (sym (ok-injective e))
    ∙ sort_cmds-blank k

key_cmds-blank :
    (cursor : ℕ → ℕ) (m : Program) (k : Key) (r : Program × List Action)
    → handle_key cursor m k ≡ ok r
    → count_if is_blank_cmd r.1 ≡ 0
unfolding handle_key
key_cmds-blank cursor m k r h =
    let (x, q, e) = >>=-eq-ok (screen_key cursor m k m.focus) _ h in
    ap (λ (z : Program × List Action). count_if is_blank_cmd z.1) (sym (ok-injective e))
    ∙ omega (
      arith,
      count_if-append is_blank_cmd x.1 (global_key k),
      screen_cmds-blank cursor m k m.focus x q,
      global_cmds-blank k,
    )

pub key-AddsNone :
    (cursor : ℕ → ℕ) (m : Program) (k : Key) (r : Program × List Action)
    → handle_key cursor m k ≡ ok r
    → AddsNone m r
key-AddsNone cursor m k r h =
    let s = key-Same cursor m k r h in
    omega (
      arith,
      key_cmds-blank cursor m k r h,
      ap (λ f. one_if (is_blank f)) s.same_focus,
      ap (count_if is_blank_cmd) s.same_cmds,
      ap (count_if is_blank_msg) s.same_msgs,
    )

receive-blanks :
    (ch : ℕ) (o : Option Tracing) (m : Program) → blanks (receive_step ch o m) ≤ blanks m
unfolding receive_step
receive-blanks ch none m = omega arith
receive-blanks ch (some t) m = delivered t.steps
  where
    delivered : (l : List Step) → blanks (deliver_step ch t l m) ≤ blanks m
    delivered [] = omega arith
    delivered (st ∷ l) = omega (arith, say-blanks (trace_step_msg st t.dest ch) m)

module _ (out : Outside) where
  end_trace-blanks :
      (a : Option Addr) (ch : ℕ) (m m' : Program)
      → end_trace out a ch m ≡ ok m'
      → blanks m' ≤ blanks m
  unfolding end_trace
  end_trace-blanks none ch m m' h = cc
  end_trace-blanks (some a) ch m m' h = elim (if-eq (out.trace_fails ch) _ _ (ok-injective h)) [
    | inl (q, e) ↦ omega (arith, ap blanks e, say-blanks error_msg m)
    | inr (q, e) ↦ omega (arith, ap blanks e)
  ]

  pub run_cmd-blanks :
      (a : Action) (m m' : Program)
      → run_cmd out a m ≡ ok m'
      → blanks m' ≤ blanks m + one_if (is_blank_cmd a)
  unfolding run_cmd
  run_cmd-blanks gives_error m m' h =
      omega (arith, ap blanks (ok-injective h), say-blanks error_msg m)
  run_cmd-blanks ticks m m' h =
      omega (arith, ap blanks (ok-injective h), say-blanks update_rows_msg m)
  run_cmd-blanks (goes screen) m m' h =
      omega (arith, ap blanks (ok-injective h), say-blanks (go_msg screen) m)
  run_cmd-blanks (next_trace ch) m m' h =
      omega (arith, ap blanks (ok-injective h), receive-blanks ch (get_elem? m.tracings ch) m)
  run_cmd-blanks (runs_trace a ch) m m' h = omega (arith, end_trace-blanks a ch m m' h)
  run_cmd-blanks other_cmd m m' h =
      omega (arith, ap blanks (ok-injective h), say-blanks other_msg m)
  run_cmd-blanks quits m m' h = omega (arith, ap blanks (ok-injective h))
  run_cmd-blanks suspends m m' h = omega (arith, ap blanks (ok-injective h))
  run_cmd-blanks clears_screen m m' h = omega (arith, ap blanks (ok-injective h))

  with_pinger-AddsNone :
      (row : Row) (o : Result (Unit {0})) (m : Program) (r : Program × List Action)
      → with_pinger out row o m ≡ ok r
      → AddsNone m r
  unfolding with_pinger
  with_pinger-AddsNone row (ok u) m r h = subst (AddsNone m) (ok-injective h) (omega arith)
  with_pinger-AddsNone row (err e) m r h = subst (AddsNone m) (ok-injective h) (omega arith)
  with_pinger-AddsNone row panic m r h = cc

  pub start_pinger-AddsNone :
      (group : Bytes) (index : ℕ) (a : Option Addr) (m : Program) (r : Program × List Action)
      → start_pinger out group index a m ≡ ok r
      → AddsNone m r
  unfolding start_pinger
  start_pinger-AddsNone group index none m r h = cc
  start_pinger-AddsNone group index (some a) m r h = with_pinger-AddsNone _ (out.new_pinger a) m r h

  pub update_msg-blanks :
      (msg : Msg) (m : Program) (r : Program × List Action)
      → update_msg out msg m ≡ ok r
      → AddsUpTo (one_if (is_blank_msg msg)) m r
  unfolding update_msg update_trace_step
  update_msg-blanks (trace_step_msg st host ch) m r h =
      let (x, q, e) = >>=-eq-ok (start_pinger out host st.pos_in_path (some st.host) m) _ h in
      subst (AddsUpTo 0 m) (ok-injective e) (
        omega (
          arith,
          start_pinger-AddsNone host st.pos_in_path (some st.host) m x q,
          count_if-append is_blank_cmd x.1 (next_trace ch ∷ []),
        ))
  update_msg-blanks update_rows_msg m r h = subst (AddsUpTo 0 m) (ok-injective h) (omega arith)
  update_msg-blanks (go_msg screen) m r h =
      subst (AddsUpTo (one_if (is_blank screen)) m) (ok-injective h) (omega arith)
  update_msg-blanks error_msg m r h = cc
  update_msg-blanks other_msg m r h = subst (AddsUpTo 0 m) (ok-injective h) (omega arith)
