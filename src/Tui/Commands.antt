-- ===== src/Tui/Commands.antt =====
-- tui.go as steps: a command that runs gives a message, and `Update` makes commands of a message.
use vasily.Base.{
  ℕ, Bool, Option, none, some, List, [], ◌∷◌, ◌++◌, length, get_elem?, set, remove_at,
  if◌then◌else◌, Result, ok, err, panic, ◌>>=◌,
}
use vasily.Backend.{Addr, Bytes}
use vasily.Tracer.{Step}
use vasily.Sortselect.{Model}
use vasily.Sortselect
use vasily.Tui.{
  main_screen, Key, Row, Tracing, Msg, trace_step_msg, update_rows_msg, error_msg, other_msg,
  go_msg, Action, gives_error, ticks, quits, suspends, clears_screen, other_cmd, runs_trace,
  next_trace, goes, Program, Outside, widget_cmds, handle_key,
}

-- Commands that are started, with those of the widgets.
abbrev pub start : Program × List Action → List Action → Program
start (m, cs) more = record m { cmds = m.cmds ++ (cs ++ more) }

abbrev pub found_addr : Result Addr → Option Addr
found_addr (ok a) = some a
found_addr _ = none

-- `New`
abbrev pub new_program : List Sortselect.SortColumn → Model → Program
new_program sort_cols sort = record {
  focus = main_screen;
  rows = [];
  sort_cols = sort_cols;
  sort = sort;
  tracings = [];
  cmds = [];
  msgs = [];
}

abbrev pub say : Msg → Program → Program
say msg m = record m { msgs = m.msgs ++ (msg ∷ []) }

-- `nextTraceCmd` on a channel: a step, or nothing from a closed channel.
unfoldable pub deliver_step : ℕ → Tracing → List Step → Program → Program
deliver_step ch t [] m = m
deliver_step ch t (step ∷ steps) m =
    say (trace_step_msg step t.dest ch)
      (record m { tracings = set m.tracings ch (record t { steps = steps }) })

unfoldable pub receive_step : ℕ → Option Tracing → Program → Program
unfolding deliver_step
receive_step ch none m = m
receive_step ch (some t) m = deliver_step ch t t.steps m

-- What happens next: a command ends, a message is handled, a key is pressed.
pub data Event : Type 0 where
  runs handles : ℕ → Event
  presses : Key → Event

module _ (out : Outside) where
  -- `AddRow` with its `UpdateRows`.
  abbrev pub add_row : Row → Program → Program
  add_row r m = record m { rows = out.sorted m.sort_cols (m.rows ++ (r ∷ [])) }

  -- `startPingerCmd` when `pinger.New` has returned.
  unfoldable pub with_pinger : Row → Result (Unit {0}) → Program → Result (Program × List Action)
  with_pinger r (ok u) m = ok (add_row r m, [])
  with_pinger r (err e) m = ok (m, gives_error ∷ [])
  with_pinger r panic m = panic

  -- An address that is a nil pointer is dereferenced by `AddrVersion`.
  unfoldable pub start_pinger : Bytes → ℕ → Option Addr → Program → Result (Program × List Action)
  unfolding with_pinger
  start_pinger group index none m = panic
  start_pinger group index (some a) m =
      with_pinger (record { group = group; index = index; target = a }) (out.new_pinger a) m

  unfoldable pub start_trace : Option Addr → Program → Program × List Action
  start_trace addr m = (
    record m {
      tracings =
          m.tracings ++ (record { dest = out.addr_string addr; steps = out.route addr } ∷ []);
    },
    runs_trace addr (length m.tracings) ∷ next_trace (length m.tracings) ∷ [],
  )

  unfoldable pub update_trace_step : Step → Bytes → ℕ → Program → Result (Program × List Action)
  unfolding start_pinger
  update_trace_step step host ch m = do
    (m, cs) ← start_pinger host step.pos_in_path (some step.host) m
    ok (m, cs ++ (next_trace ch ∷ []))

  abbrev pub update_rows : Program → Program × List Action
  update_rows m = (record m { rows = out.sorted m.sort_cols m.rows }, ticks ∷ [])

  -- The switch of `Update`; `handleError` panics.
  unfoldable pub update_msg : Msg → Program → Result (Program × List Action)
  unfolding update_trace_step
  update_msg (trace_step_msg step host ch) m = update_trace_step step host ch m
  update_msg update_rows_msg m = ok (update_rows m)
  update_msg (go_msg screen) m = ok (record m { focus = screen }, [])
  update_msg error_msg m = panic
  update_msg other_msg m = ok (m, [])

  unfoldable pub update : Msg → Program → Result Program
  unfolding update_msg
  update msg m = do r ← update_msg msg m; ok (start r (widget_cmds (out.widgets (length m.msgs))))

  -- The loop of `Init`; that a lookup failed is only logged.
  unfoldable pub init_host : Bool → Bytes → Program → Result Program
  unfolding start_pinger start_trace
  init_host trace h m =
      if trace
      then ok (start (start_trace (found_addr (out.lookup h)) m) [])
      else (do r ← start_pinger h 0 (found_addr (out.lookup h)) m; ok (start r []))

  unfoldable pub init_hosts : Bool → List Bytes → Program → Result Program
  unfolding init_host
  init_hosts trace [] m = ok m
  init_hosts trace (h ∷ hosts) m = do m ← init_host trace h m; init_hosts trace hosts m

  -- `Init`
  unfoldable pub init : Bool → List Bytes → Program → Result Program
  unfolding init_hosts
  init trace hosts m = init_hosts trace hosts (start (update_rows m) [])

  -- The command of `startTraceCmd`, on an address that `TraceRoute` can be called with.
  unfoldable pub end_trace : Option Addr → ℕ → Program → Result Program
  end_trace none ch m = panic
  end_trace (some a) ch m = ok (if out.trace_fails ch then say error_msg m else m)

  -- A command that was taken off the list. With `tea.Quit` the program ends, so it gives no message.
  unfoldable pub run_cmd : Action → Program → Result Program
  unfolding receive_step end_trace
  run_cmd gives_error m = ok (say error_msg m)
  run_cmd ticks m = ok (say update_rows_msg m)
  run_cmd (goes screen) m = ok (say (go_msg screen) m)
  run_cmd (next_trace ch) m = ok (receive_step ch (get_elem? m.tracings ch) m)
  run_cmd (runs_trace addr ch) m = end_trace addr ch m
  run_cmd other_cmd m = ok (say other_msg m)
  run_cmd quits m = ok m
  run_cmd suspends m = ok m
  run_cmd clears_screen m = ok m

  abbrev pub run_taken : Option Action → Program → Result Program
  run_taken none m = ok m
  run_taken (some a) m = run_cmd a m

  abbrev pub handle_taken : Option Msg → Program → Result Program
  handle_taken none m = ok m
  handle_taken (some msg) m = update msg m

  unfoldable pub step : Program → Event → Result Program
  unfolding run_cmd update handle_key
  step m (runs i) = run_taken (get_elem? m.cmds i) (record m { cmds = remove_at m.cmds i })
  step m (handles i) = handle_taken (get_elem? m.msgs i) (record m { msgs = remove_at m.msgs i })
  step m (presses k) = do r ← handle_key (out.list_cursor m.sort.cursor) m k; ok (start r [])

  unfoldable pub run : Program → List Event → Result Program
  unfolding step
  run m [] = ok m
  run m (e ∷ es) = do m ← step m e; run m es
