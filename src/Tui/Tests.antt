-- ===== src/Tui/Tests.antt =====
-- One host whose path has one step.
use vasily.Base.{
  ℕ, ◌==◌, ◌⊎◌, arith, Bool, true, false, none, Option, some, List, [], ◌∷◌, map, count_if, Result,
  ok, err, no_addresses, ◌≡◌, refl,
}
use vasily.Backend.{Addr, Bytes}
use mathlib.Core.List.{reverse}
use vasily.Base.Int.{◌-ℤ◌}
use vasily.Tracer.{Step, trace_route, probes_per_hop_of, max_ttl_of, read_seq, was_seen, same_key}
use vasily.Tracer.Clear.{clear_path, path}
use vasily.Tui.Paths.{run_traced-path}
use vasily.Table.{default_sort}
use vasily.Sortselect.{Model}
use vasily.Tui.{
  set_option_defaults, trace_options, Row, ticks, runs_trace, next_trace, Program, Outside,
}
use vasily.Tui.Commands.{new_program, init, runs, handles, run}
use vasily.Tui.Kept.{row_of, rows_for}
use vasily.Tui.Traced.{tracing_of, run_traced}
use vasily.Tui.Views.{view, run-view}

abbrev router : Addr
router = 198 ∷ 51 ∷ 100 ∷ 1 ∷ []

abbrev hop : Step
hop = record { pos_in_path = 1; host = router }

abbrev hop_route : Option Addr → List Step
hop_route a = hop ∷ []

abbrev host_name : Addr → Bytes
host_name a = a

-- The second letter stands for a host that is not found.
abbrev find_host : Bytes → Result Addr
find_host (h ∷ []) = ok router
find_host _ = err no_addresses

abbrev outside : Outside
outside = record {
  lookup = find_host;
  addr_string = λ a. 104 ∷ [];
  new_pinger = λ a. ok tt;
  route = hop_route;
  trace_fails = λ ch. false;
  sorted = λ cols rows. rows;
  list_cursor = λ now k. now;
  widgets = λ n. 0;
}

abbrev selection : Model
selection = record { items = []; n_selected = 0; cursor = 0 }

abbrev host : Bytes
host = 104 ∷ []

abbrev opened : Program
opened = record (new_program default_sort selection) {
  tracings = record { dest = host; steps = hop ∷ [] } ∷ [];
  cmds = ticks ∷ runs_trace (some router) 0 ∷ next_trace 0 ∷ [];
}

abbrev finished : Program
finished = record (new_program default_sort selection) {
  rows = record { group = host; index = 1; target = router } ∷ [];
  tracings = record { dest = host; steps = [] } ∷ [];
  cmds = ticks ∷ runs_trace (some router) 0 ∷ [];
}

abbrev first_hop : Row → Bool
first_hop r = r.index == 1

run_traced_example :
    count_if first_hop finished.rows
    ≡ count_if first_hop (rows_for (map (tracing_of outside) (host ∷ [])))
unfolding init run
run_traced_example =
    run_traced outside (host ∷ []) default_sort selection (runs 2 ∷ handles 0 ∷ runs 2 ∷ []) opened
      finished first_hop (λ p cols rows. refl) refl refl (refl, refl)

abbrev answers : ℕ → Addr
answers n = router

sent_in_order :
    hop_route (some router)
    ≡ reverse (
        (trace_route
          (clear_path answers 1)
          host_name
          true
          (some (trace_options (set_option_defaults none)))
          33434).0.steps)
unfolding trace_route set_option_defaults probes_per_hop_of max_ttl_of ◌-ℤ◌ read_seq was_seen
    same_key
sent_in_order = refl

run_traced-path_example :
    count_if first_hop finished.rows ≡ count_if first_hop (map (row_of host) (path answers 1))
unfolding init run
run_traced-path_example =
    run_traced-path outside host router answers 1 33434 host_name true default_sort selection
      (runs 2 ∷ handles 0 ∷ runs 2 ∷ []) opened finished first_hop (λ p cols rows. refl) refl
      sent_in_order (omega arith) (omega arith) refl refl (refl, refl)

run-view_example :
    (view reverse host router finished ≡ ok (reverse host))
    ⊎ (view reverse host router finished ≡ ok (reverse router))
unfolding init run
run-view_example =
    run-view reverse host router outside true (host ∷ []) default_sort selection
      (runs 2 ∷ handles 0 ∷ runs 2 ∷ []) opened finished refl refl
