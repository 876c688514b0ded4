-- ===== src/Tui/Finished.antt =====
-- internal/tui/tui.go: a program whose traces have ended.
use vasily.Base.{
  ℕ, suc, ◌≤◌, ◌==◌, Bool, true, false, one_if, some, List, [], ◌∷◌, map, length, get_elem?,
  count_if, count_if-append, ◌≡◌, ◌⊎◌, inl, inr, refl, ap, ◌∙◌, arith,
}
use vasily.Tracer.{Step}
use vasily.Tui.{
  Screen, Row, Tracing, Msg, trace_step_msg, update_rows_msg, error_msg, other_msg, go_msg, Action,
  gives_error, ticks, quits, suspends, clears_screen, other_cmd, runs_trace, next_trace, goes,
  Program,
}
use vasily.Tui.Kept.{
  row_of, rows_for, is_next, is_step, is_error_cmd, is_error_msg, is_row, total, errors, pending,
  IsOpen,
}

-- The commands and messages that a trace still has, and errors.
abbrev pub is_trace_cmd : Action → Bool
is_trace_cmd gives_error = true
is_trace_cmd (next_trace ch) = true
is_trace_cmd _ = false

abbrev pub is_trace_msg : Msg → Bool
is_trace_msg error_msg = true
is_trace_msg (trace_step_msg st host ch) = true
is_trace_msg _ = false

abbrev pub IsDone : Program → Type 0
IsDone m = (count_if is_trace_cmd m.cmds ≡ 0) × (count_if is_trace_msg m.msgs ≡ 0)

-- What a run keeps: each row is still to come or is in the table, and an open trace is served.
pub record Inv (goal : (Row → Bool) → ℕ) (m : Program) : Type 0 where
  pub kept : (p : Row → Bool) → (total p m ≡ goal p) ⊎ (1 ≤ errors m)
  pub served : (ch : ℕ) → IsOpen ch m → 1 ≤ pending ch m

one_if_le : (b : Bool) → one_if b ≤ 1
one_if_le true = omega arith
one_if_le false = omega arith

count_if_le {ℓ} :
    {A : Type ℓ} (f g : A → Bool) (xs : List A)
    → ((x : A) → one_if (f x) ≤ one_if (g x))
    → count_if f xs ≤ count_if g xs
count_if_le f g [] h = omega arith
count_if_le f g (x ∷ xs) h = omega (arith, h x, count_if_le f g xs h)

next_le : (ch : ℕ) (a : Action) → one_if (is_next ch a) ≤ one_if (is_trace_cmd a)
next_le ch gives_error = omega arith
next_le ch (next_trace c) = one_if_le (ch == c)
next_le ch ticks = omega arith
next_le ch quits = omega arith
next_le ch suspends = omega arith
next_le ch clears_screen = omega arith
next_le ch other_cmd = omega arith
next_le ch (runs_trace a c) = omega arith
next_le ch (goes s) = omega arith

error_cmd_le : (a : Action) → one_if (is_error_cmd a) ≤ one_if (is_trace_cmd a)
error_cmd_le gives_error = omega arith
error_cmd_le (next_trace c) = omega arith
error_cmd_le ticks = omega arith
error_cmd_le quits = omega arith
error_cmd_le suspends = omega arith
error_cmd_le clears_screen = omega arith
error_cmd_le other_cmd = omega arith
error_cmd_le (runs_trace a c) = omega arith
error_cmd_le (goes s) = omega arith

-- A test that holds only for steps, or for errors.
msg_le :
    (f : Msg → Bool)
    → f update_rows_msg ≡ false
    → f other_msg ≡ false
    → ((s : Screen) → f (go_msg s) ≡ false)
    → (msg : Msg) → one_if (f msg) ≤ one_if (is_trace_msg msg)
msg_le f u o g error_msg = one_if_le (f error_msg)
msg_le f u o g (trace_step_msg st h c) = one_if_le (f (trace_step_msg st h c))
msg_le f u o g update_rows_msg = omega (arith, ap one_if u)
msg_le f u o g other_msg = omega (arith, ap one_if o)
msg_le f u o g (go_msg s) = omega (arith, ap one_if (g s))

ended_rows :
    (p : Row → Bool) (ts : List Tracing)
    → ((ch : ℕ) (t : Tracing) → get_elem? ts ch ≡ some t → length t.steps ≡ 0)
    → count_if p (rows_for ts) ≡ 0
ended_rows p [] h = refl
ended_rows p (t ∷ ts) h =
    count_if-append p (map (row_of t.dest) t.steps) (rows_for ts)
    ∙ omega (arith, empty t.steps (h 0 t refl), ended_rows p ts (λ ch u g. h (suc ch) u g))
  where
    empty : (l : List Step) → length l ≡ 0 → count_if p (map (row_of t.dest) l) ≡ 0
    empty [] e = refl
    empty (x ∷ l) e = absurd (omega arith)

pub done-rows :
    (goal : (Row → Bool) → ℕ) (m : Program) (p : Row → Bool)
    → Inv goal m
    → IsDone m
    → count_if p m.rows ≡ goal p
done-rows goal m p v (c, s) =
    let no_errors : errors m ≡ 0 = omega (
      arith,
      c,
      s,
      count_if_le is_error_cmd is_trace_cmd m.cmds error_cmd_le,
      count_if_le is_error_msg is_trace_msg m.msgs (msg_le is_error_msg refl refl (λ s. refl)),
    ) in
    let no_rows : count_if (is_row p) m.msgs ≡ 0 = omega (
      arith,
      s,
      count_if_le (is_row p) is_trace_msg m.msgs (msg_le (is_row p) refl refl (λ s. refl)),
    ) in
    let ended = ended_rows p m.tracings closed in
    elim (v.kept p) [
      | inl e ↦ omega (arith, e, no_rows, ended)
      | inr l ↦ absurd (omega (arith, l, no_errors))
    ]
  where
    none_pending : (ch : ℕ) → pending ch m ≡ 0
    none_pending ch = omega (
      arith,
      c,
      s,
      count_if_le (is_next ch) is_trace_cmd m.cmds (next_le ch),
      count_if_le (is_step ch) is_trace_msg m.msgs (msg_le (is_step ch) refl refl (λ s. refl)),
    )

    closed : (ch : ℕ) (t : Tracing) → get_elem? m.tracings ch ≡ some t → length t.steps ≡ 0
    closed ch t g = by_length t.steps refl
      where
        by_length : (l : List Step) → t.steps ≡ l → length t.steps ≡ 0
        by_length [] e = ap length e
        by_length (x ∷ l) e =
            let some_left = v.served ch (t, g, omega (arith, ap length e)) in
            absurd (omega (arith, some_left, none_pending ch))
