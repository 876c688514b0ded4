-- ===== src/Tui/Traced.antt =====
-- internal/tui/tui.go: the rows that the traces of a run leave.
use vasily.Base.{
  ℕ, zero, suc, ◌≤◌, ◌==◌, ==_refl, Bool, true, one_if, some, List, [], ◌∷◌, ◌++◌, append_assoc,
  append-nil, map, length, get_elem?, count_if, count_if-append, ok, >>=-eq-ok, ok-injective, ◌≡◌,
  ◌⊎◌, inl, inr, refl, sym, ap, ◌∙◌, arith,
}
use mathlib.Core.Path.{subst}
use vasily.Backend.{Bytes}
use vasily.Sortselect.{SortColumn, Model}
use vasily.Tui.{Row, Tracing, ticks, runs_trace, next_trace, Program, Outside}
use vasily.Tui.Commands.{
  found_addr, start_trace, start, init_host, init_hosts, new_program, init, Event, step, run,
}
use vasily.Tui.Kept.{rows_for, is_next, is_row, total, pending, IsOpen, Keeps}
use vasily.Tui.Handled.{IsSorting, step-Keeps}
use vasily.Tui.Finished.{IsDone, Inv, done-rows}

abbrev pub tracing_of : Outside → Bytes → Tracing
tracing_of out h = record {
  dest = out.addr_string (found_addr (out.lookup h));
  steps = out.route (found_addr (out.lookup h));
}

Keeps-Inv : (goal : (Row → Bool) → ℕ) (m m' : Program) → Inv goal m → Keeps m m' → Inv goal m'
Keeps-Inv goal m m' v k = record {
  kept = λ p. elim (k.totals p) [
    | inl e ↦ elim (v.kept p) [
      | inl q ↦ inl (e ∙ q)
      | inr l ↦ inr (omega (arith, l, k.errors_stay))
    ]
    | inr l ↦ inr l
  ];
  served = λ ch o. let (o, l) = k.served ch o in omega (arith, l, v.served ch o);
}

run-Inv :
    (out : Outside) (goal : (Row → Bool) → ℕ) (es : List Event) (m m' : Program)
    → IsSorting out
    → Inv goal m
    → run out m es ≡ ok m'
    → Inv goal m'
unfolding run
run-Inv out goal [] m m' s v h = subst (Inv goal) (ok-injective h) v
run-Inv out goal (e ∷ es) m m' s v h =
    let (b, q, k) = >>=-eq-ok (step out m e) _ h in
    run-Inv out goal es b m' s (Keeps-Inv goal m b v (step-Keeps out m b e s q)) k

get_elem?-snoc {ℓ} :
    {A : Type ℓ} (xs : List A) (a : A) (i : ℕ) {x : A}
    → get_elem? (xs ++ (a ∷ [])) i ≡ some x
    → (get_elem? xs i ≡ some x) ⊎ (i ≡ length xs)
get_elem?-snoc [] a zero h = inr refl
get_elem?-snoc [] a (suc i) h = cc
get_elem?-snoc (y ∷ xs) a zero h = inl h
get_elem?-snoc (y ∷ xs) a (suc i) h = elim (get_elem?-snoc xs a i h) [
  | inl e ↦ inl e
  | inr e ↦ inr (ap suc e)
]

-- A program whose traces are all served, and those of the hosts to come.
record Opened (out : Outside) (hosts : List Bytes) (m m' : Program) : Type 0 where
  opened_rows : m'.rows ≡ m.rows
  opened_msgs : m'.msgs ≡ m.msgs
  opened_tracings : m'.tracings ≡ m.tracings ++ map (tracing_of out) hosts
  opened_served : (ch : ℕ) → IsOpen ch m' → 1 ≤ pending ch m'

start_trace-served :
    (out : Outside) (h : Bytes) (m : Program)
    → ((ch : ℕ) → IsOpen ch m → 1 ≤ pending ch m)
    → (ch : ℕ) → IsOpen ch (start (start_trace out (found_addr (out.lookup h)) m) [])
    → 1 ≤ pending ch (start (start_trace out (found_addr (out.lookup h)) m) [])
unfolding start_trace
start_trace-served out h m f ch (t, g, l) =
    let new =
      runs_trace (found_addr (out.lookup h)) (length m.tracings)
      ∷ next_trace (length m.tracings)
      ∷ [] in
    elim (get_elem?-snoc m.tracings (tracing_of out h) ch g) [
      | inl e ↦ omega (arith, f ch (t, e, l), count_if-append (is_next ch) m.cmds new)
      | inr e ↦ omega (
        arith,
        count_if-append (is_next ch) m.cmds new,
        ap one_if (ap (λ c. ch == c) (sym e) ∙ ==_refl ch),
      )
    ]

init_hosts-Opened :
    (out : Outside) (hosts : List Bytes) (m m' : Program)
    → ((ch : ℕ) → IsOpen ch m → 1 ≤ pending ch m)
    → init_hosts out true hosts m ≡ ok m'
    → Opened out hosts m m'
unfolding init_hosts init_host start_trace
init_hosts-Opened out [] m m' f h = subst (Opened out [] m) (ok-injective h) (record {
  opened_rows = refl;
  opened_msgs = refl;
  opened_tracings = sym (append-nil m.tracings);
  opened_served = f;
})
init_hosts-Opened out (x ∷ hosts) m m' f h =
    let b = start (start_trace out (found_addr (out.lookup x)) m) [] in
    let o = init_hosts-Opened out hosts b m' (start_trace-served out x m f) h in
    record {
      opened_rows = o.opened_rows;
      opened_msgs = o.opened_msgs;
      opened_tracings =
          o.opened_tracings
          ∙ append_assoc m.tracings (tracing_of out x ∷ []) (map (tracing_of out) hosts);
      opened_served = o.opened_served;
    }

-- A program that traces the paths to its hosts, in whatever order commands end, messages are
-- handled and keys are pressed. In every run that does not panic, once no trace has a command or a
-- message left and no error is to be reported, the table has a row for each step of each trace, as
-- often as there is such a step, and no other row. Sorting keeps the rows.
pub run_traced :
    (out : Outside) (hosts : List Bytes) (cols : List SortColumn) (sort : Model) (es : List Event)
    (m0 m : Program) (p : Row → Bool)
    → IsSorting out
    → init out true hosts (new_program cols sort) ≡ ok m0
    → run out m0 es ≡ ok m
    → IsDone m
    → count_if p m.rows ≡ count_if p (rows_for (map (tracing_of out) hosts))
unfolding init
run_traced out hosts cols sort es m0 m p s h r d =
    let o =
      init_hosts-Opened out hosts
        (record (new_program cols sort) { rows = out.sorted cols []; cmds = ticks ∷ [] }) m0
        (λ ch (t, g, l). absurd (cc)) h in
    let v =
      run-Inv out (λ q. total q m0) es m0 m s
        (record { kept = λ q. inl refl; served = o.opened_served }) r in
    done-rows (λ q. total q m0) m p v d
    ∙ omega (
      arith,
      s p cols [],
      ap (count_if p) o.opened_rows,
      ap (count_if (is_row p)) o.opened_msgs,
      ap (λ ts. count_if p (rows_for ts)) o.opened_tracings,
    )
