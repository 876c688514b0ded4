-- ===== src/Tui/Handled.antt =====
-- internal/tui/tui.go: messages and keys against those counts.
use vasily.Base.{
  ℕ, zero, suc, ◌+◌, ◌≤◌, Bool, false, one_if, Option, none, some, List, [], ◌∷◌, ◌++◌, get_elem?,
  remove_at, count_if, count_if-append, count_if-remove_at, remove_at-none, if-eq, Result, ok, err,
  panic, >>=-eq-ok, ok-injective, ◌≡◌, ◌⊎◌, inl, inr, refl, sym, ap, ◌∙◌, arith,
}
use mathlib.Core.Path.{subst}
use vasily.Backend.{Bytes}
use vasily.Tracer.{Step}
use vasily.Sortselect.{SortColumn, Input, handle_key_msg}
use vasily.Tui.{
  Screen, main_screen, sort_select, no_screen, Key, Row, Msg, trace_step_msg, update_rows_msg,
  error_msg, other_msg, go_msg, Action, gives_error, ticks, other_cmd, next_trace, Program, Outside,
  widget_cmds, sort_update, screen_key, handle_key, accepts, apply_input, sort_input,
}
use vasily.Tui.Commands.{
  add_row, with_pinger, start_pinger, update_trace_step, update_msg, start, update, Event, runs,
  handles, presses, run_taken, handle_taken, step,
}
use vasily.Tui.Kept.{
  row_of, rows_for, is_next, is_step, is_error_cmd, is_error_msg, is_row, total, Keeps, IsTaken,
  run_cmd-Keeps,
}

-- `UpdateRows` loses no row and makes none.
abbrev pub IsSorting : Outside → Type 0
IsSorting out =
    (p : Row → Bool) (cols : List SortColumn) (rows : List Row)
    → count_if p (out.sorted cols rows) ≡ count_if p rows

widgets-count : (f : Action → Bool) (n : ℕ) → f other_cmd ≡ false → count_if f (widget_cmds n) ≡ 0
widgets-count f zero h = refl
widgets-count f (suc n) h = omega (arith, ap one_if h, widgets-count f n h)

-- A message that was handled, or a key, with the commands that it led to.
start-Keeps :
    (m m2 : Program) (cs : List Action) (n : ℕ)
    → m2.cmds ≡ m.cmds
    → m2.tracings ≡ m.tracings
    → ((p : Row → Bool) → (total p m2 ≡ total p m) ⊎ (1 ≤ count_if is_error_cmd cs))
    → count_if is_error_msg m2.msgs ≡ count_if is_error_msg m.msgs
    → ((ch : ℕ)
        → count_if (is_step ch) m.msgs ≤ count_if (is_step ch) m2.msgs + count_if (is_next ch) cs)
    → Keeps m (start (m2, cs) (widget_cmds n))
start-Keeps m m2 cs n c t r e s = record {
  totals = λ p. elim (r p) [ inl q ↦ inl q | inr l ↦ inr (omega (arith, l, counts is_error_cmd)) ];
  errors_stay = omega (arith, e, counts is_error_cmd, ap (count_if is_error_cmd) c);
  served = λ ch (u, h, l). (
    (u, ap (λ z. get_elem? z ch) (sym t) ∙ h, l),
    omega (arith, s ch, counts (is_next ch), ap (count_if (is_next ch)) c),
  );
}
  where
    counts :
        (f : Action → Bool)
        → count_if f m2.cmds + count_if f cs ≤ count_if f (m2.cmds ++ (cs ++ widget_cmds n))
    counts f = omega (
      arith,
      count_if-append f m2.cmds (cs ++ widget_cmds n),
      count_if-append f cs (widget_cmds n),
    )

module _ (out : Outside) (sorting : IsSorting out) (m : Program) (msgs : List Msg) (n : ℕ) where
  traced-Keeps :
      (st : Step) (host : Bytes) (ch : ℕ) (r : Result (Unit {0})) (m2 : Program) (cs : List Action)
      → IsTaken (trace_step_msg st host ch) msgs m.msgs
      → with_pinger out (row_of host st) r (record m { msgs = msgs }) ≡ ok (m2, cs)
      → Keeps m (start (m2, cs ++ (next_trace ch ∷ [])) (widget_cmds n))
  unfolding with_pinger
  traced-Keeps st host ch (ok u) m2 cs k h =
      subst
        (λ (z : Program × List Action).
          Keeps m (start (z.0, z.1 ++ (next_trace ch ∷ [])) (widget_cmds n)))
        (ok-injective h)
        (start-Keeps m (add_row out (row_of host st) (record m { msgs = msgs }))
          (next_trace ch ∷ []) n refl refl
          (λ p. inl (
            omega (
              arith,
              k (is_row p),
              sorting p m.sort_cols (m.rows ++ (row_of host st ∷ [])),
              count_if-append p m.rows (row_of host st ∷ []),
            )))
          (omega (arith, k is_error_msg)) (λ c. omega (arith, k (is_step c))))
  traced-Keeps st host ch (err e) m2 cs k h =
      subst
        (λ (z : Program × List Action).
          Keeps m (start (z.0, z.1 ++ (next_trace ch ∷ [])) (widget_cmds n)))
        (ok-injective h)
        (start-Keeps m (record m { msgs = msgs }) (gives_error ∷ next_trace ch ∷ []) n refl refl
          (λ p. inr (omega arith)) (omega (arith, k is_error_msg))
          (λ c. omega (arith, k (is_step c))))
  traced-Keeps st host ch panic m2 cs k h = cc

  update_msg-Keeps :
      (msg : Msg) (r : Program × List Action)
      → IsTaken msg msgs m.msgs
      → update_msg out msg (record m { msgs = msgs }) ≡ ok r
      → Keeps m (start r (widget_cmds n))
  unfolding update_msg update_trace_step start_pinger
  update_msg-Keeps error_msg r k h = cc
  update_msg-Keeps other_msg r k h =
      subst (λ r. Keeps m (start r (widget_cmds n))) (ok-injective h)
        (start-Keeps m (record m { msgs = msgs }) [] n refl refl
          (λ p. inl (omega (arith, k (is_row p)))) (omega (arith, k is_error_msg))
          (λ c. omega (arith, k (is_step c))))
  update_msg-Keeps (go_msg screen) r k h =
      subst (λ r. Keeps m (start r (widget_cmds n))) (ok-injective h)
        (start-Keeps m (record m { msgs = msgs; focus = screen }) [] n refl refl
          (λ p. inl (omega (arith, k (is_row p)))) (omega (arith, k is_error_msg))
          (λ c. omega (arith, k (is_step c))))
  update_msg-Keeps update_rows_msg r k h =
      subst (λ r. Keeps m (start r (widget_cmds n))) (ok-injective h)
        (start-Keeps m (record m { msgs = msgs; rows = out.sorted m.sort_cols m.rows }) (ticks ∷ [])
          n refl refl (λ p. inl (omega (arith, k (is_row p), sorting p m.sort_cols m.rows)))
          (omega (arith, k is_error_msg)) (λ c. omega (arith, k (is_step c))))
  update_msg-Keeps (trace_step_msg st host ch) r k h =
      let ((m2, cs), q, e) =
        >>=-eq-ok
          (with_pinger out (row_of host st) (out.new_pinger st.host) (record m { msgs = msgs })) _
          h in
      subst (λ r. Keeps m (start r (widget_cmds n))) (ok-injective e)
        (traced-Keeps st host ch (out.new_pinger st.host) m2 cs k q)

-- A key changes the focus' screen, and neither rows nor what runs.
pub record Same (m m2 : Program) : Type 0 where
  pub same_focus : m2.focus ≡ m.focus
  pub same_rows : m2.rows ≡ m.rows
  pub same_tracings : m2.tracings ≡ m.tracings
  pub same_cmds : m2.cmds ≡ m.cmds
  pub same_msgs : m2.msgs ≡ m.msgs

itself : (m : Program) → Same m m
itself m = record {
  same_focus = refl;
  same_rows = refl;
  same_tracings = refl;
  same_cmds = refl;
  same_msgs = refl;
}

input-Same : (m m2 : Program) (x : Option Input) → apply_input m x ≡ ok m2 → Same m m2
input-Same m m2 none h = subst (Same m) (ok-injective h) (itself m)
input-Same m m2 (some x) h =
    let (s, q, e) = >>=-eq-ok (handle_key_msg m.sort x) _ h in
    subst (Same m) (ok-injective e) (record {
      same_focus = refl;
      same_rows = refl;
      same_tracings = refl;
      same_cmds = refl;
      same_msgs = refl;
    })

sort_update-Same :
    (cursor : ℕ → ℕ) (m m2 : Program) (k : Key) → sort_update cursor m k ≡ ok m2 → Same m m2
unfolding sort_update
sort_update-Same cursor m m2 k h = elim (if-eq (accepts k) _ _ h) [
  | inl (q, e) ↦ subst (Same m) (ok-injective e) (record {
    same_focus = refl;
    same_rows = refl;
    same_tracings = refl;
    same_cmds = refl;
    same_msgs = refl;
  })
  | inr (q, e) ↦ input-Same m m2 (sort_input cursor k) e
]

screen-Same :
    (cursor : ℕ → ℕ) (m : Program) (k : Key) (screen : Screen) (r : Program × List Action)
    → screen_key cursor m k screen ≡ ok r
    → Same m r.0
unfolding screen_key
screen-Same cursor m k main_screen r h =
    subst (λ (z : Program × List Action). Same m z.0) (ok-injective h) (itself m)
screen-Same cursor m k no_screen r h =
    subst (λ (z : Program × List Action). Same m z.0) (ok-injective h) (itself m)
screen-Same cursor m k sort_select r h =
    let (m2, q, e) = >>=-eq-ok (sort_update cursor m k) _ h in
    subst (λ (z : Program × List Action). Same m z.0) (ok-injective e)
      (sort_update-Same cursor m m2 k q)

pub key-Same :
    (cursor : ℕ → ℕ) (m : Program) (k : Key) (r : Program × List Action)
    → handle_key cursor m k ≡ ok r
    → Same m r.0
unfolding handle_key
key-Same cursor m k r h =
    let (x, q, e) = >>=-eq-ok (screen_key cursor m k m.focus) _ h in
    subst (λ (z : Program × List Action). Same m z.0) (ok-injective e)
      (screen-Same cursor m k m.focus x q)

Same-Keeps : (m : Program) (r : Program × List Action) → Same m r.0 → Keeps m (start r [])
Same-Keeps m r s =
    start-Keeps m r.0 r.1 0 s.same_cmds s.same_tracings
      (λ p. inl (
        ap (λ l. count_if p l + count_if (is_row p) r.0.msgs + count_if p (rows_for r.0.tracings))
          s.same_rows
        ∙ ap (λ l. count_if p m.rows + count_if (is_row p) l + count_if p (rows_for r.0.tracings))
            s.same_msgs
        ∙ ap (λ l. count_if p m.rows + count_if (is_row p) m.msgs + count_if p (rows_for l))
            s.same_tracings))
      (ap (count_if is_error_msg) s.same_msgs)
      (λ ch. omega (arith, ap (count_if (is_step ch)) s.same_msgs))

nothing-Keeps : (m : Program) → Keeps m m
nothing-Keeps m = record {
  totals = λ p. inl refl;
  errors_stay = omega arith;
  served = λ ch o. (o, omega arith);
}

run_taken-Keeps :
    (out : Outside) (m m' : Program) (i : ℕ) (o : Option Action)
    → get_elem? m.cmds i ≡ o
    → run_taken out o (record m { cmds = remove_at m.cmds i }) ≡ ok m'
    → Keeps m m'
run_taken-Keeps out m m' i none g h =
    subst (Keeps m)
      (ap (λ l. record m { cmds = l }) (sym (remove_at-none m.cmds i g)) ∙ ok-injective h)
      (nothing-Keeps m)
run_taken-Keeps out m m' i (some a) g h =
    run_cmd-Keeps out m m' (remove_at m.cmds i) a (λ f. count_if-remove_at f m.cmds i a g) h

handle_taken-Keeps :
    (out : Outside) (m m' : Program) (i : ℕ) (o : Option Msg)
    → IsSorting out
    → get_elem? m.msgs i ≡ o
    → handle_taken out o (record m { msgs = remove_at m.msgs i }) ≡ ok m'
    → Keeps m m'
unfolding update
handle_taken-Keeps out m m' i none s g h =
    subst (Keeps m)
      (ap (λ l. record m { msgs = l }) (sym (remove_at-none m.msgs i g)) ∙ ok-injective h)
      (nothing-Keeps m)
handle_taken-Keeps out m m' i (some msg) s g h =
    let (r, q, e) = >>=-eq-ok (update_msg out msg (record m { msgs = remove_at m.msgs i })) _ h in
    subst (Keeps m) (ok-injective e) (
      update_msg-Keeps out s m (remove_at m.msgs i) _ msg r
        (λ f. count_if-remove_at f m.msgs i msg g) q)

pub step-Keeps :
    (out : Outside) (m m' : Program) (e : Event) → IsSorting out → step out m e ≡ ok m' → Keeps m m'
unfolding step
step-Keeps out m m' (runs i) s h = run_taken-Keeps out m m' i (get_elem? m.cmds i) refl h
step-Keeps out m m' (handles i) s h = handle_taken-Keeps out m m' i (get_elem? m.msgs i) s refl h
step-Keeps out m m' (presses k) s h =
    let (r, q, e) = >>=-eq-ok (handle_key (out.list_cursor m.sort.cursor) m k) _ h in
    subst (Keeps m) (ok-injective e)
      (Same-Keeps m r (key-Same (out.list_cursor m.sort.cursor) m k r q))
