-- ===== src/Pinger/Tests.antt =====
-- Concrete runs, and the theorems at concrete inputs.
use vasily.Base.{
  ℕ, ◌+◌, ◌^◌, ◌%◌, ◌≡◌, ◌≢◌, refl, true, false, Option, some, List, [], ◌∷◌, arith, ok,
}
use vasily.Base.Int.{ℤ, pos, negsuc}
use vasily.Backend.{Addr, Packet}
use vasily.History.{
  PingHistory, rev_results, new_history, capacity, waiting, success, dropped, get, add, slot,
  record_result, add_stats_for,
}
use vasily.History.Window.{IsAt, put, fresh_result}
use vasily.History.Calls.{find, timed}
use vasily.Pinger.{Options, handle_reply, maybe_record_timeout, send_ping, reply_type}
use vasily.Pinger.Replies.{answered, listed, handle_reply-listed}
use vasily.Pinger.Run.{
  Pinger, Event, idle, closed, ticks, hands_over, sees_close, times_out, new_pinger, run, step,
  tick, hand_over, fire,
}
use vasily.Pinger.Run.Waiting.{Inv}
use vasily.Pinger.Run.Steps.{run_finished}
use vasily.Pinger.Run.Endings.{IsStranded, run_stranded}

abbrev no_root : ℤ → ℕ → ℤ
no_root m n = pos 0

abbrev later : ℕ → ℤ
later t = pos 5

abbrev host : Addr
host = 10 ∷ 0 ∷ 0 ∷ 1 ∷ []

abbrev sent_two : PingHistory
sent_two = record {
  history = fresh_result 10 ∷ fresh_result 11 ∷ [];
  stats = record { n = 0; failures = 0; avg_latency = pos 0; std_dev = pos 0 };
  m2 = pos 0;
  last_seq = pos 1;
}

sent_two-IsAt : IsAt 2 sent_two
sent_two-IsAt = record { room = omega arith; last = refl }

abbrev reply_one : Packet
reply_one = record { packet_type = 1; seq = pos 1; payload = [] }

listed_one : (listed sent_two 1).result_type ≡ waiting
unfolding find rev_results
listed_one = refl

handle_reply-listed_example :
    let r = record (listed sent_two 1) { result_type = success; peer = some host } in
    (h' : PingHistory) × (handle_reply no_root later sent_two reply_one host ≡ ok h')
    × IsAt 2 h'
    × (capacity h' ≡ 2)
    × (rev_results h' ≡ put 1 (timed later r) (rev_results sent_two))
    × (h'.stats.n ≡ 0 + 1)
    × (h'.stats.failures ≡ 0 + 0)
unfolding find rev_results reply_type
handle_reply-listed_example =
    handle_reply-listed no_root later 2 1 sent_two reply_one host success sent_two-IsAt
      (omega arith) (omega arith) refl (answered refl)

abbrev one_ping : Option Options
one_ping = some (record { n_pings = pos 1; interval = pos 0; history = pos 2; timeout = pos 0 })

abbrev fresh : Pinger
fresh = record {
  hist = record {
    history = fresh_result 0 ∷ fresh_result 0 ∷ [];
    stats = record { n = 0; failures = 0; avg_latency = pos 0; std_dev = pos 0 };
    m2 = pos 0;
    last_seq = negsuc 0;
  };
  pings_remaining = pos 1;
  next_seq = 0;
  sending = idle;
  timeouts = [];
  shutdown = false;
  done = false;
  running = true;
  finished = false;
}

new_fresh : new_pinger (ok tt) one_ping ≡ ok fresh
unfolding new_pinger new_history
new_fresh = refl

-- The ping is sent and its timeout queued; the ticker fires again and the send loop returns; the
-- main loop sees that; then the timer fires.
abbrev in_order : List Event
in_order = ticks (ok tt) 10 ∷ hands_over 20 ∷ ticks (ok tt) 30 ∷ sees_close ∷ times_out later ∷ []

abbrev over : Pinger
over = record fresh {
  hist = record {
    history =
        record (fresh_result 10) { result_type = dropped; latency = pos 5 } ∷ fresh_result 0 ∷ [];
    stats = record { n = 1; failures = 1; avg_latency = pos 0; std_dev = pos 0 };
    m2 = pos 0;
    last_seq = pos 0;
  };
  pings_remaining = pos 0;
  next_seq = 1;
  sending = closed;
  shutdown = true;
  running = false;
  finished = true;
}

run-in_order : run no_root fresh in_order ≡ ok over
unfolding run step tick hand_over fire send_ping add slot maybe_record_timeout get record_result
    add_stats_for
run-in_order = refl

run_finished_example : dropped ≢ waiting
unfolding find rev_results
run_finished_example =
    run_finished no_root (ok tt) one_ping in_order fresh over 0
      (record (fresh_result 10) { result_type = dropped; latency = pos 5 }) new_fresh run-in_order
      refl refl

-- The timer fired before the send loop returned.
abbrev stranded : Pinger
stranded = record over { shutdown = false; running = true; finished = false }

stranded-IsStranded : IsStranded stranded
stranded-IsStranded = record { running = refl; not_closed = refl; sent_all = refl; empty = refl }

run_to_stranded :
    run no_root fresh (ticks (ok tt) 10 ∷ hands_over 20 ∷ times_out later ∷ ticks (ok tt) 30 ∷ [])
    ≡ ok stranded
unfolding run step tick hand_over fire send_ping add slot maybe_record_timeout get record_result
    add_stats_for
run_to_stranded = refl

abbrev still_stranded : Pinger
still_stranded = record stranded { shutdown = true }

run_on : run no_root stranded (sees_close ∷ times_out later ∷ []) ≡ ok still_stranded
unfolding run step fire
run_on = refl

run_stranded_example : (still_stranded.running ≡ true) × (still_stranded.timeouts ≡ [])
run_stranded_example =
    run_stranded no_root (sees_close ∷ times_out later ∷ []) stranded still_stranded
      stranded-IsStranded ((λ e. cc), ((λ e. cc), tt)) run_on

abbrev spent : Pinger
spent = record fresh {
  hist = record {
    history = record (fresh_result 10) { result_type = dropped } ∷ [];
    stats = record { n = 65536; failures = 65536; avg_latency = pos 0; std_dev = pos 0 };
    m2 = pos 0;
    last_seq = pos 65535;
  };
  pings_remaining = pos 100;
}

spent-Inv : Inv (2 ^ 16) spent
spent-Inv = record {
  counted = record { room = omega arith; last = refl };
  numbered = refl;
  tracked = λ t l w.
      let first : t % 1 ≡ 0 = omega arith in
      let not_waiting = rw first at w in absurd (cc not_waiting);
  drained = λ f. absurd (cc);
  ended = λ f. absurd (cc);
}
