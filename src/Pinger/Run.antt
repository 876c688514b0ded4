-- ===== src/Pinger/Run.antt =====
-- internal/pinger/pinger.go: `Run` with its two goroutines, as steps that the environment orders.
pub mod Slots
pub mod Waiting
pub mod Firing
pub mod Steps
pub mod Endings
use vasily.Base.{
  ℕ, suc, ◌+◌, ◌-◌, ◌%◌, ◌^◌, Bool, true, false, not, ◌&&◌, Option, none, some, List, [], ◌∷◌, ◌++◌,
  ◌==◌, if◌then◌else◌, Result, ok, err, panic, ◌>>=◌, ◌>>◌,
}
use vasily.Base.Int.{ℤ, pos, negsuc, ◌-ℤ◌, ◌≤ℤ◌, ltb_ℤ}
use vasily.Backend.{Addr, Packet}
use vasily.History.{PingHistory, new_history}
use vasily.Pinger.{Options, history_of, n_pings_of, handle_reply, maybe_record_timeout, send_ping}

-- Where the send loop stands: waiting for its ticker, blocked on `sentSeqs <- seq` after the ping
-- was sent, or returned with the channel closed.
pub data Sending : Type 0 where
  idle : Sending
  handing : ℕ → Sending
  closed : Sending

pub record TimeoutDatum : Type 0 where
  pub seq : ℕ
  pub t : ℕ

-- The history is shared under `mu`; `pings_remaining` and `next_seq` are the send loop's, the rest
-- is the main loop's. `done` is set when the channel `done` is closed. `running` is false once `Run`
-- has returned, and `finished` tells that it returned by "finished shutdown".
pub record Pinger : Type 0 where
  pub hist : PingHistory
  pub pings_remaining : ℤ
  pub next_seq : ℕ
  pub sending : Sending
  pub timeouts : List TimeoutDatum
  pub shutdown : Bool
  pub done : Bool
  pub running : Bool
  pub finished : Bool

-- `New`: the connection is opened first; a negative length panics in `make`.
unfoldable pub new_pinger : Result (Unit {0}) → Option Options → Result Pinger
unfolding history_of n_pings_of
new_pinger conn opts = do
  conn
  elim (history_of opts) [
    | pos n ↦ ok (record {
      hist = new_history n;
      pings_remaining = n_pings_of opts;
      next_seq = 0;
      sending = idle;
      timeouts = [];
      shutdown = false;
      done = false;
      running = true;
      finished = false;
    })
    | negsuc k ↦ panic
  ]

-- What can happen next: the send loop's ticker, its rendezvous with the main loop, the main loop's
-- read of the closed channel, a packet of `receiveLoop`, the first timeout's timer, `Close`, and
-- what each loop does once `done` is closed. Each carries what the environment decides: the clock,
-- the outcome of a write, the packet.
pub data Event : Type 0 where
  ticks : Result (Unit {0}) → ℕ → Event
  hands_over : ℕ → Event
  sees_close : Event
  receives : Packet → Addr → (ℕ → ℤ) → Event
  times_out : (ℕ → ℤ) → Event
  closes : Event
  aborts : Event
  stops : Event

-- `(seq + 1) & sequenceNoMask`
abbrev pub succ_seq : ℕ → ℕ
succ_seq seq = (seq + 1) % 2 ^ 16

-- The send loop after `sendPing`: it goes to `sentSeqs <- seq`, or returns on an error.
unfoldable pub after_send : Pinger → Result PingHistory → Result Pinger
after_send p (ok h) = ok (record p {
  hist = h;
  pings_remaining = p.pings_remaining -ℤ pos 1;
  sending = handing p.next_seq;
})
after_send p (err e) =
    ok (record p { pings_remaining = p.pings_remaining -ℤ pos 1; sending = closed })
after_send p panic = panic

-- The ticker's case of the send loop.
unfoldable pub tick : Pinger → Result (Unit {0}) → ℕ → Result Pinger
unfolding after_send
tick p written now =
    if ltb_ℤ (pos 0) p.pings_remaining
    then after_send p (send_ping written p.hist (pos p.next_seq) now)
    else ok (record p { sending = closed })

-- The two sides of `sentSeqs`: the main loop queues a timeout, the send loop goes on.
unfoldable pub hand_over : Pinger → ℕ → ℕ → Pinger
hand_over p seq deadline = record p {
  timeouts = p.timeouts ++ (record { seq = seq; t = deadline } ∷ []);
  next_seq = succ_seq seq;
  sending = idle;
}

abbrev pub is_empty {ℓ} : {A : Type ℓ} → List A → Bool
is_empty [] = true
is_empty (x ∷ xs) = false

-- An event whose side is not ready leaves everything as it is.
module _ (sqrt_ratio : ℤ → ℕ → ℤ) where
  unfoldable pub fire : Pinger → List TimeoutDatum → (ℕ → ℤ) → Result Pinger
  fire p [] since = ok p
  fire p (td ∷ timeouts) since = do
    h ← maybe_record_timeout sqrt_ratio since p.hist (pos td.seq)
    let over = p.shutdown && is_empty timeouts
    ok (record p { hist = h; timeouts = timeouts; running = not over; finished = over })

  abbrev pub send_step : Pinger → Sending → Result (Unit {0}) → ℕ → Result Pinger
  send_step p idle written now = tick p written now
  send_step p (handing seq) written now = ok p
  send_step p closed written now = ok p

  abbrev pub hand_step : Pinger → Sending → ℕ → Result Pinger
  hand_step p idle deadline = ok p
  hand_step p (handing seq) deadline = ok (hand_over p seq deadline)
  hand_step p closed deadline = ok p

  abbrev pub close_step : Pinger → Sending → Result Pinger
  close_step p idle = ok p
  close_step p (handing seq) = ok p
  close_step p closed = ok (record p { shutdown = true })

  abbrev pub stop_step : Pinger → Sending → Result Pinger
  stop_step p idle = ok (record p { sending = closed })
  stop_step p (handing seq) = ok p
  stop_step p closed = ok p

  -- The select statements of the two loops.
  unfoldable pub step : Pinger → Event → Result Pinger
  step p (ticks written now) = send_step p p.sending written now
  step p (hands_over deadline) = if p.running then hand_step p p.sending deadline else ok p
  step p sees_close = if p.running then close_step p p.sending else ok p
  step p (receives pkt peer since) =
      let handled = (do
        h ← handle_reply sqrt_ratio since p.hist pkt peer
        ok (record p { hist = h })) in
      if p.running then handled else ok p
  step p (times_out since) = if p.running then fire p p.timeouts since else ok p
  step p closes = if p.done then panic else ok (record p { done = true })
  step p aborts = if p.done then ok (record p { running = false }) else ok p
  step p stops = if p.done then stop_step p p.sending else ok p

  unfoldable pub run : Pinger → List Event → Result Pinger
  run p [] = ok p
  run p (e ∷ es) = do p ← step p e; run p es
