-- ===== src/Tui/Paths.antt =====
-- internal/tui/tui.go with internal/tracer: from the options to the table.
use vasily.Base.{
  ℕ, ◌+◌, ◌≤◌, ◌<◌, Bool, true, some, none, List, [], ◌∷◌, ◌++◌, append-nil, map, reverse, count_if,
  ok, ◌≡◌, refl, ap, ◌∙◌, arith,
}
use mathlib.Core.List.{reverse-cons}
use vasily.Backend.{Addr, Bytes}
use vasily.Tracer.{Step, trace_route, probes_per_hop_of, max_ttl_of}
use vasily.Tracer.Clear.{clear_path, path}
use vasily.Tracer.Paths.{trace_route-path}
use vasily.Sortselect.{SortColumn, Model}
use vasily.Tui.{Row, Tracing, Program, Outside, set_option_defaults, trace_options}
use vasily.Tui.Commands.{found_addr, new_program, init, Event, run}
use vasily.Tui.Kept.{row_of, rows_for}
use vasily.Tui.Handled.{IsSorting}
use vasily.Tui.Finished.{IsDone}
use vasily.Tui.Traced.{run_traced}

count_map_append :
    (p : Row → Bool) (f : Step → Row) (xs ys : List Step)
    → count_if p (map f (xs ++ ys)) ≡ count_if p (map f xs) + count_if p (map f ys)
count_map_append p f [] ys = omega arith
count_map_append p f (x ∷ xs) ys = omega (arith, count_map_append p f xs ys)

count_map_reverse :
    (p : Row → Bool) (f : Step → Row) (xs : List Step)
    → count_if p (map f (reverse xs)) ≡ count_if p (map f xs)
count_map_reverse p f [] = refl
count_map_reverse p f (x ∷ xs) =
    ap (λ l. count_if p (map f l)) (reverse-cons x xs)
    ∙ count_map_append p f (reverse xs) (x ∷ [])
    ∙ omega (arith, count_map_reverse p f xs)

-- The steps of one trace, whatever their order.
rows_of_trace :
    (p : Row → Bool) (t : Tracing) (steps : List Step)
    → t.steps ≡ reverse steps
    → count_if p (rows_for (t ∷ [])) ≡ count_if p (map (row_of t.dest) steps)
rows_of_trace p t steps h =
    ap (count_if p) (append-nil (map (row_of t.dest) t.steps))
    ∙ ap (λ l. count_if p (map (row_of t.dest) l)) h
    ∙ count_map_reverse p (row_of t.dest) steps

-- The program with its default options traces the path to one host. If every router on the way
-- answers, and the host replies at a distance of at most 63, then in every run that does not panic
-- the table in the end has a row for each router and one for the host, and no other, whatever the
-- order of commands, messages and keys. What the tracer sends on its channel is the list of the
-- steps that it reports, the first one first.
pub run_traced-path :
    (out : Outside) (h : Bytes) (a : Addr) (router : ℕ → Addr) (d base_port : ℕ)
    (printed : Addr → Bytes) (port_conn : Bool) (cols : List SortColumn) (sort : Model)
    (es : List Event) (m0 m : Program) (p : Row → Bool)
    → IsSorting out
    → out.lookup h ≡ ok a
    → out.route (some a)
      ≡ reverse (
          (trace_route
            (clear_path router d)
            printed
            port_conn
            (some (trace_options (set_option_defaults none)))
            base_port).0.steps)
    → 1 ≤ d
    → d < 64
    → init out true (h ∷ []) (new_program cols sort) ≡ ok m0
    → run out m0 es ≡ ok m
    → IsDone m
    → count_if p m.rows ≡ count_if p (map (row_of (out.addr_string (some a))) (path router d))
unfolding set_option_defaults probes_per_hop_of max_ttl_of
run_traced-path out h a router d base_port printed port_conn cols sort es m0 m p s found sent l u i
      r e =
    let opts = some (trace_options (set_option_defaults none)) in
    let (t, returned, walked) =
      trace_route-path router d printed port_conn opts base_port 2 64 refl refl l u in
    let steps : out.route (some a) ≡ reverse (path router d) =
      sent ∙ ap reverse (ap (λ x. x.0.steps) returned ∙ walked) in
    run_traced out (h ∷ []) cols sort es m0 m p s i r e
    ∙ ap
        (λ x. count_if p (
          rows_for (
            record { dest = out.addr_string (found_addr x); steps = out.route (found_addr x) }
            ∷ [])))
        found
    ∙ rows_of_trace p (record { dest = out.addr_string (some a); steps = out.route (some a) })
        (path router d) steps
