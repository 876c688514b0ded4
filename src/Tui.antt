-- ===== src/Tui.antt =====
-- internal/tui/tui.go with the keys of table/table.go and sortselect/sortselect.go: the messages of
-- the user interface and the commands that they lead to. Themes, sizes and rendering are left out.
pub mod Commands
pub mod Kept
pub mod Handled
pub mod Finished
pub mod Traced
pub mod Blanks
pub mod Views
pub mod Paths
mod Tests
use vasily.Base.{
  ℕ, zero, suc, ◌==◌, Bool, true, false, Option, none, some, List, [], ◌∷◌, ◌++◌, length, get_elem?,
  set, remove_at, if◌then◌else◌, Error, Result, ok, err, panic, ◌>>=◌,
}
use vasily.Base.Int.{ℤ, pos, eqb_ℤ}
use vasily.Backend.{Addr, Bytes}
use vasily.Util.{maybe_set_default}
use vasily.Tracer.{Step}
use vasily.Tracer
use vasily.Table.{set_sort}
use vasily.Sortselect.{
  SortColumn, Input, moves, toggles, reverses, clears, handle_key_msg, handle_key_accept, Model,
}

pub record Options : Type 0 where
  pub trace : Bool
  pub ping_interval : ℤ
  pub ping_backend : Bytes
  pub trace_interval : ℤ
  pub trace_backend : Bytes
  pub trace_max_ttl : ℤ
  pub probes_per_hop : ℤ

abbrev pub zero_options : Options
zero_options = record {
  trace = false;
  ping_interval = pos 0;
  ping_backend = [];
  trace_interval = pos 0;
  trace_backend = [];
  trace_max_ttl = pos 0;
  probes_per_hop = pos 0;
}

abbrev pub is_zero : ℤ → Bool
is_zero n = eqb_ℤ n (pos 0)

abbrev pub is_empty : Bytes → Bool
is_empty [] = true
is_empty (b ∷ bs) = false

abbrev pub or_zero : Option Options → Options
or_zero none = zero_options
or_zero (some o) = o

-- A second, the backends "icmp" and "udp", and what the command line has as its defaults.
unfoldable pub set_option_defaults : Option Options → Options
set_option_defaults given =
    let o = or_zero given in
    record o {
      ping_interval = maybe_set_default is_zero o.ping_interval (pos 1000000000);
      ping_backend = maybe_set_default is_empty o.ping_backend (105 ∷ 99 ∷ 109 ∷ 112 ∷ []);
      trace_interval = maybe_set_default is_zero o.trace_interval (pos 1000000000);
      trace_backend = maybe_set_default is_empty o.trace_backend (117 ∷ 100 ∷ 112 ∷ []);
      trace_max_ttl = maybe_set_default is_zero o.trace_max_ttl (pos 64);
      probes_per_hop = maybe_set_default is_zero o.probes_per_hop (pos 3);
    }

-- The options that `startTraceCmd` hands to the tracer.
abbrev pub trace_options : Options → Tracer.Options
trace_options o = record {
  interval = o.trace_interval;
  probes_per_hop = o.probes_per_hop;
  max_ttl = o.trace_max_ttl;
}

-- nav.go
pub data Screen : Type 0 where
  no_screen main_screen sort_select : Screen

-- The keys that the screens and `handleKeyMsg` know by name.
pub data Key : Type 0 where
  key_s key_q key_x key_space key_enter key_esc key_minus key_r key_ctrl_d : Key
  key_ctrl_c key_ctrl_z key_ctrl_l : Key
  other_key : ℕ → Key

-- `RowKey` with the address that a row's pinger pings.
pub record Row : Type 0 where
  pub group : Bytes
  pub index : ℕ
  pub target : Addr

-- What `TraceRoute` still sends on a channel, with the host that `nextTraceCmd` is called for.
pub record Tracing : Type 0 where
  pub dest : Bytes
  pub steps : List Step

-- A channel is its place in the list of those that were made.
pub data Msg : Type 0 where
  trace_step_msg : Step → Bytes → ℕ → Msg
  update_rows_msg error_msg other_msg : Msg
  go_msg : Screen → Msg

-- What a `tea.Cmd` does; a batch of them is a list. The commands of third-party widgets give
-- messages that are theirs.
pub data Action : Type 0 where
  gives_error ticks quits suspends clears_screen other_cmd : Action
  runs_trace : Option Addr → ℕ → Action
  next_trace : ℕ → Action
  goes : Screen → Action

-- The model with its screens, the commands that run and the messages that they have given.
pub record Program : Type 0 where
  pub focus : Screen
  pub rows : List Row
  pub sort_cols : List SortColumn
  pub sort : Model
  pub tracings : List Tracing
  pub cmds : List Action
  pub msgs : List Msg

-- What the program asks of package net, of the pinger, the tracer and the table's sort: `sorted` is
-- `UpdateRows`. `list_cursor` is where the sort screen's list moves its cursor on a key, and
-- `widgets` is what the widgets want done on a message.
pub record Outside : Type 0 where
  pub lookup : Bytes → Result Addr
  pub addr_string : Option Addr → Bytes
  pub new_pinger : Addr → Result (Unit {0})
  pub route : Option Addr → List Step
  pub trace_fails : ℕ → Bool
  pub sorted : List SortColumn → List Row → List Row
  pub list_cursor : ℕ → ℕ → ℕ
  pub widgets : ℕ → ℕ

abbrev pub widget_cmds : ℕ → List Action
widget_cmds zero = []
widget_cmds (suc n) = other_cmd ∷ widget_cmds n

-- The key bindings of table/keymap.go that give a command; the others scroll or show help.
unfoldable pub table_key : Key → List Action
table_key key_s = goes sort_select ∷ []
table_key key_q = quits ∷ []
table_key _ = []

-- A key of the sort screen that changes the selection, or moves the list's cursor.
abbrev pub sort_input : (ℕ → ℕ) → Key → Option Input
sort_input cursor key_x = some toggles
sort_input cursor key_space = some toggles
sort_input cursor key_minus = some reverses
sort_input cursor key_r = some reverses
sort_input cursor key_ctrl_d = some clears
sort_input cursor (other_key k) = some (moves (cursor k))
sort_input cursor _ = none

-- The keys of the sort screen that leave it.
unfoldable pub sort_key_cmds : Key → List Action
sort_key_cmds key_enter = goes main_screen ∷ []
sort_key_cmds key_esc = goes main_screen ∷ []
sort_key_cmds key_q = goes main_screen ∷ []
sort_key_cmds _ = []

unfoldable pub global_key : Key → List Action
global_key key_ctrl_c = quits ∷ []
global_key key_ctrl_z = suspends ∷ []
global_key key_ctrl_l = clears_screen ∷ []
global_key _ = []

abbrev pub accepts : Key → Bool
accepts key_enter = true
accepts _ = false

abbrev pub apply_input : Program → Option Input → Result Program
apply_input m none = ok m
apply_input m (some x) = do sort ← handle_key_msg m.sort x; ok (record m { sort = sort })

-- `Update` of the sort screen on a key.
unfoldable pub sort_update : (ℕ → ℕ) → Program → Key → Result Program
unfolding handle_key_accept
sort_update cursor m k =
    if accepts k
    then ok (record m { sort_cols = set_sort (handle_key_accept m.sort) })
    else apply_input m (sort_input cursor k)

unfoldable pub screen_key : (ℕ → ℕ) → Program → Key → Screen → Result (Program × List Action)
unfolding table_key sort_update sort_key_cmds
screen_key cursor m k main_screen = ok (m, table_key k)
screen_key cursor m k sort_select = do m ← sort_update cursor m k; ok (m, sort_key_cmds k)
screen_key cursor m k no_screen = ok (m, [])

-- `handleKeyMsg`
unfoldable pub handle_key : (ℕ → ℕ) → Program → Key → Result (Program × List Action)
unfolding screen_key global_key
handle_key cursor m k = do (m, cs) ← screen_key cursor m k m.focus; ok (m, cs ++ global_key k)
