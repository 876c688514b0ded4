-- ===== src/Tui/Kept.antt =====
-- internal/tui/tui.go: what is counted through a step: steps, messages and rows.
use vasily.Base.{
  ℕ, zero, suc, ◌+◌, ◌≤◌, ◌==◌, ==_iff, Bool, true, false, one_if, Option, none, some,
  some_injective, List, [], ◌∷◌, ◌++◌, map, length, get_elem?, set, count_if, count_if-append,
  get_elem?-set_ne, ok, ok-injective, if-eq, ◌≡◌, ◌≢◌, ◌⊎◌, inl, inr, refl, sym, ap, ◌∙◌, arith,
}
use mathlib.Core.Path.{subst}
use vasily.Backend.{Addr, Bytes}
use vasily.Tracer.{Step}
use vasily.Tui.{
  Row, Tracing, Msg, trace_step_msg, update_rows_msg, error_msg, other_msg, go_msg, Action,
  gives_error, ticks, quits, suspends, clears_screen, other_cmd, runs_trace, next_trace, goes,
  Program, Outside,
}
use vasily.Tui.Commands.{say, deliver_step, receive_step, end_trace, run_cmd}

abbrev pub row_of : Bytes → Step → Row
row_of dest st = record { group = dest; index = st.pos_in_path; target = st.host }

-- The rows that traces are for.
abbrev pub rows_for : List Tracing → List Row
rows_for [] = []
rows_for (t ∷ ts) = map (row_of t.dest) t.steps ++ rows_for ts

abbrev pub is_next : ℕ → Action → Bool
is_next ch (next_trace c) = ch == c
is_next ch _ = false

abbrev pub is_step : ℕ → Msg → Bool
is_step ch (trace_step_msg st host c) = ch == c
is_step ch _ = false

abbrev pub is_error_cmd : Action → Bool
is_error_cmd gives_error = true
is_error_cmd _ = false

abbrev pub is_error_msg : Msg → Bool
is_error_msg error_msg = true
is_error_msg _ = false

abbrev pub is_row : (Row → Bool) → Msg → Bool
is_row p (trace_step_msg st host c) = p (row_of host st)
is_row p _ = false

-- Rows, messages and steps to come that are for rows with a property.
abbrev pub total : (Row → Bool) → Program → ℕ
total p m = count_if p m.rows + count_if (is_row p) m.msgs + count_if p (rows_for m.tracings)

abbrev pub errors : Program → ℕ
errors m = count_if is_error_cmd m.cmds + count_if is_error_msg m.msgs

abbrev pub pending : ℕ → Program → ℕ
pending ch m = count_if (is_next ch) m.cmds + count_if (is_step ch) m.msgs

-- The channel has a step to come.
abbrev pub IsOpen : ℕ → Program → Type 0
IsOpen ch m = (t : Tracing) × (get_elem? m.tracings ch ≡ some t) × (1 ≤ length t.steps)

pub record Keeps (m m' : Program) : Type 0 where
  pub totals : (p : Row → Bool) → (total p m' ≡ total p m) ⊎ (1 ≤ errors m')
  pub errors_stay : errors m ≤ errors m'
  pub served : (ch : ℕ) → IsOpen ch m' → IsOpen ch m × (pending ch m ≤ pending ch m')

-- A command or message that is taken off its list.
abbrev pub IsTaken : {A : Type 0} → A → List A → List A → Type 0
IsTaken {A} a rest all = (f : A → Bool) → count_if f rest + one_if (f a) ≡ count_if f all

map-rows_for :
    (p : Row → Bool) (ts : List Tracing) (ch : ℕ) (t : Tracing) (st : Step) (steps : List Step)
    → get_elem? ts ch ≡ some t
    → t.steps ≡ st ∷ steps
    → count_if p (rows_for (set ts ch (record t { steps = steps }))) + one_if (p (row_of t.dest st))
      ≡ count_if p (rows_for ts)
map-rows_for p [] ch t st steps h e = cc
map-rows_for p (u ∷ ts) zero t st steps h e =
    let a = count_if-append p (map (row_of t.dest) steps) (rows_for ts) in
    let b = count_if-append p (map (row_of u.dest) u.steps) (rows_for ts) in
    let c : count_if p (map (row_of u.dest) u.steps)
        ≡ count_if p (map (row_of t.dest) (st ∷ steps)) =
      ap (λ (z : Tracing). count_if p (map (row_of z.dest) z.steps)) (some_injective h)
      ∙ ap (λ l. count_if p (map (row_of t.dest) l)) e in
    omega (arith, a, b, c)
map-rows_for p (u ∷ ts) (suc ch) t st steps h e =
    let a =
      count_if-append p (map (row_of u.dest) u.steps)
        (rows_for (set ts ch (record t { steps = steps }))) in
    let b = count_if-append p (map (row_of u.dest) u.steps) (rows_for ts) in
    omega (arith, a, b, map-rows_for p ts ch t st steps h e)

module _ (m : Program) (cmds : List Action) where
  -- A command that gives nothing.
  quiet-Keeps :
      (a : Action)
      → IsTaken a cmds m.cmds
      → ((ch : ℕ) → is_next ch a ≡ false)
      → is_error_cmd a ≡ false
      → Keeps m (record m { cmds = cmds })
  quiet-Keeps a k n e = record {
    totals = λ p. inl refl;
    errors_stay = omega (arith, k is_error_cmd, ap one_if e);
    served = λ ch o. (o, omega (arith, k (is_next ch), ap one_if (n ch)));
  }

  -- A command that gives a message which is not of a trace.
  say-Keeps :
      (a : Action) (msg : Msg)
      → IsTaken a cmds m.cmds
      → ((ch : ℕ) → is_next ch a ≡ false)
      → ((p : Row → Bool) → is_row p msg ≡ false)
      → one_if (is_error_cmd a) ≤ one_if (is_error_msg msg)
      → Keeps m (say msg (record m { cmds = cmds }))
  say-Keeps a msg k n r e = record {
    totals =
        λ p. inl (omega (arith, count_if-append (is_row p) m.msgs (msg ∷ []), ap one_if (r p)));
    errors_stay = omega (arith, k is_error_cmd, e, count_if-append is_error_msg m.msgs (msg ∷ []));
    served = λ ch o. (
      o,
      omega
          (arith, k (is_next ch), ap one_if (n ch), count_if-append (is_step ch) m.msgs (msg ∷ [])),
    );
  }

  -- Nothing is taken from a channel that is at its end.
  ended-Keeps :
      (c : ℕ) (o : Option Tracing)
      → IsTaken (next_trace c) cmds m.cmds
      → get_elem? m.tracings c ≡ o
      → ((t : Tracing) → o ≡ some t → length t.steps ≡ 0)
      → Keeps m (record m { cmds = cmds })
  ended-Keeps c o k g z = record {
    totals = λ p. inl refl;
    errors_stay = omega (arith, k is_error_cmd);
    served = λ ch (t, h, l).
        ((t, h, l), omega (arith, k (is_next ch), ap one_if (other ch t h l (ch == c) refl)));
  }
    where
      other :
          (ch : ℕ) (t : Tracing)
          → get_elem? m.tracings ch ≡ some t
          → 1 ≤ length t.steps
          → (b : Bool) → (ch == c) ≡ b
          → (ch == c) ≡ false
      other ch t h l false q = q
      other ch t h l true q =
          let at = ap (λ i. get_elem? m.tracings i) ((==_iff ch c).0 q) in
          absurd (omega (arith, l, z t (sym g ∙ sym at ∙ h)))

  deliver_step-Keeps :
      (c : ℕ) (t : Tracing) (l : List Step)
      → IsTaken (next_trace c) cmds m.cmds
      → get_elem? m.tracings c ≡ some t
      → t.steps ≡ l
      → Keeps m (deliver_step c t l (record m { cmds = cmds }))
  unfolding deliver_step
  deliver_step-Keeps c t [] k g e =
      ended-Keeps c (some t) k g
        (λ u q. ap (λ (z : Tracing). length z.steps) (sym (some_injective q)) ∙ ap length e)
  deliver_step-Keeps c t (st ∷ steps) k g e = record {
    totals = λ p. inl (
        omega (
          arith,
          count_if-append (is_row p) m.msgs (trace_step_msg st t.dest c ∷ []),
          map-rows_for p m.tracings c t st steps g e,
        ));
    errors_stay = omega (
      arith,
      k is_error_cmd,
      count_if-append is_error_msg m.msgs (trace_step_msg st t.dest c ∷ []),
    );
    served = λ ch o. (
      was_open ch o (ch == c) refl,
      omega (
        arith,
        k (is_next ch),
        count_if-append (is_step ch) m.msgs (trace_step_msg st t.dest c ∷ []),
      ),
    );
  }
    where
      apart : (a b : ℕ) → (a == b) ≡ false → b ≢ a
      apart a b q e = ground arith

      was_open :
          (ch : ℕ)
          → IsOpen ch (record m { tracings = set m.tracings c (record t { steps = steps }) })
          → (b : Bool) → (ch == c) ≡ b
          → IsOpen ch m
      was_open ch o true q =
          (t, ap (λ i. get_elem? m.tracings i) ((==_iff ch c).0 q) ∙ g, omega (arith, ap length e))
      was_open ch (u, h, l) false q = (
        u,
        sym (get_elem?-set_ne m.tracings c ch (record t { steps = steps }) (apart ch c q)) ∙ h,
        l,
      )

  next-Keeps :
      (c : ℕ) (o : Option Tracing)
      → IsTaken (next_trace c) cmds m.cmds
      → get_elem? m.tracings c ≡ o
      → Keeps m (receive_step c o (record m { cmds = cmds }))
  unfolding receive_step
  next-Keeps c none k g = ended-Keeps c none k g (λ t q. cc)
  next-Keeps c (some t) k g = deliver_step-Keeps c t t.steps k g refl

pub run_cmd-Keeps :
    (out : Outside) (m m' : Program) (cmds : List Action) (a : Action)
    → IsTaken a cmds m.cmds
    → run_cmd out a (record m { cmds = cmds }) ≡ ok m'
    → Keeps m m'
unfolding run_cmd end_trace
run_cmd-Keeps out m m' cmds gives_error k h =
    subst (Keeps m) (ok-injective h)
      (say-Keeps m cmds gives_error error_msg k (λ ch. refl) (λ p. refl) (omega arith))
run_cmd-Keeps out m m' cmds ticks k h =
    subst (Keeps m) (ok-injective h)
      (say-Keeps m cmds ticks update_rows_msg k (λ ch. refl) (λ p. refl) (omega arith))
run_cmd-Keeps out m m' cmds (goes screen) k h =
    subst (Keeps m) (ok-injective h)
      (say-Keeps m cmds (goes screen) (go_msg screen) k (λ ch. refl) (λ p. refl) (omega arith))
run_cmd-Keeps out m m' cmds other_cmd k h =
    subst (Keeps m) (ok-injective h)
      (say-Keeps m cmds other_cmd other_msg k (λ ch. refl) (λ p. refl) (omega arith))
run_cmd-Keeps out m m' cmds (next_trace c) k h =
    subst (Keeps m) (ok-injective h) (next-Keeps m cmds c (get_elem? m.tracings c) k refl)
run_cmd-Keeps out m m' cmds quits k h =
    subst (Keeps m) (ok-injective h) (quiet-Keeps m cmds quits k (λ ch. refl) refl)
run_cmd-Keeps out m m' cmds suspends k h =
    subst (Keeps m) (ok-injective h) (quiet-Keeps m cmds suspends k (λ ch. refl) refl)
run_cmd-Keeps out m m' cmds clears_screen k h =
    subst (Keeps m) (ok-injective h) (quiet-Keeps m cmds clears_screen k (λ ch. refl) refl)
run_cmd-Keeps out m m' cmds (runs_trace addr c) k h = ended addr h
  where
    ended : (a : Option Addr) → end_trace out a c (record m { cmds = cmds }) ≡ ok m' → Keeps m m'
    ended none h = cc
    ended (some x) h = elim (if-eq (out.trace_fails c) _ _ (ok-injective h)) [
      | inl (q, e) ↦
          subst (Keeps m) e (
            say-Keeps m cmds (runs_trace addr c) error_msg k (λ ch. refl) (λ p. refl) (omega arith))
      | inr (q, e) ↦ subst (Keeps m) e (quiet-Keeps m cmds (runs_trace addr c) k (λ ch. refl) refl)
    ]
