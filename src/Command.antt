-- ===== src/Command.antt =====
-- cmd/vasily.go: the flags of the command, and what main does before the user interface runs.
use vasily.Base.{
  ℕ, ◌≤◌, Bool, true, false, none, List, [], ◌∷◌, length, if◌then◌else◌, ◌≡◌, ap, arith,
}
use vasily.Base.Int.{ℤ, pos, ltb_ℤ}
use vasily.Backend.{Bytes}
use vasily.Pinger.{second}
use vasily.Tui.{Options, set_option_defaults}

pub record Flags : Type 0 where
  pub ping_path : Bool
  pub logfile : Bytes
  pub ping_interval : ℤ
  pub queries : ℤ
  pub trace_interval : ℤ
  pub ping_backend : Bytes
  pub trace_backend : Bytes
  pub max_ttl : ℤ
  pub print_version : Bool

-- The log goes to "/dev/null"; the backends are "icmp" and "udp".
abbrev pub default_flags : Flags
default_flags = record {
  ping_path = false;
  logfile = 47 ∷ 100 ∷ 101 ∷ 118 ∷ 47 ∷ 110 ∷ 117 ∷ 108 ∷ 108 ∷ [];
  ping_interval = second;
  queries = pos 3;
  trace_interval = second;
  ping_backend = 105 ∷ 99 ∷ 109 ∷ 112 ∷ [];
  trace_backend = 117 ∷ 100 ∷ 112 ∷ [];
  max_ttl = pos 64;
  print_version = false;
}

-- What main comes to: an exit with a status, which runs no deferred call, or the user interface.
pub data Outcome : Type 0 where
  exits : ℕ → Outcome
  runs_ui : List Bytes → Options → Outcome

abbrev pub max_ping_interval : ℤ
max_ping_interval = second

abbrev pub options_of : Flags → Options
options_of f = record {
  trace = f.ping_path;
  ping_interval = f.ping_interval;
  ping_backend = f.ping_backend;
  trace_interval = f.trace_interval;
  trace_backend = f.trace_backend;
  trace_max_ttl = f.max_ttl;
  probes_per_hop = f.queries;
}

-- `opens` says whether bubbletea's LogToFile succeeds.
abbrev pub log_opens : (Bytes → Bool) → Bytes → Bool
log_opens opens [] = true
log_opens opens (c ∷ cs) = opens (c ∷ cs)

-- `main` once the flags are parsed; `args` are the arguments that are not flags.
unfoldable pub main : (Bytes → Bool) → Flags → List Bytes → Outcome
main opens f [] = if f.print_version then exits 0 else exits 1
main opens f (host ∷ hosts) =
    if f.print_version
    then exits 0
    else if ltb_ℤ f.ping_interval max_ping_interval
    then exits 1
    else if log_opens opens f.logfile
    then runs_ui (host ∷ hosts) (options_of f)
    else exits 1

-- With no flag but --path, and a log that opens, the user interface runs with the options that it
-- has by default itself, for the hosts that are named.
pub main-set_option_defaults :
    (opens : Bytes → Bool) (path : Bool) (host : Bytes) (hosts : List Bytes)
    → opens default_flags.logfile ≡ true
    → main opens (record default_flags { ping_path = path }) (host ∷ hosts)
      ≡ runs_ui (host ∷ hosts) (record (set_option_defaults none) { trace = path })
unfolding main set_option_defaults
main-set_option_defaults opens path host hosts h =
    ap
      (λ b.
        if b
        then runs_ui (host ∷ hosts) (options_of (record default_flags { ping_path = path }))
        else exits 1)
      h

-- Whatever the flags are, if the user interface runs, it runs for the hosts that are named, at least
-- one of them, and the interval between pings is not below a second.
pub main-max_ping_interval :
    (opens : Bytes → Bool) (f : Flags) (args hosts : List Bytes) (o : Options)
    → main opens f args ≡ runs_ui hosts o
    → (hosts ≡ args) × (1 ≤ length hosts) × (ltb_ℤ o.ping_interval max_ping_interval ≡ false)
unfolding main
main-max_ping_interval opens f args hosts o h = ground arith
