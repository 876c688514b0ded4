-- ===== src/Pinger/Run/Steps.antt =====
-- internal/pinger/pinger.go: the invariant of a run.
use vasily.Base.{
  ℕ, zero, suc, ◌<◌, ◌≡◌, ◌≢◌, refl, inl, inr, Bool, true, false, Option, none, some, List, [], ◌∷◌,
  length-replicate, arith, Result, ok, panic, ◌>>=◌, >>=-eq-ok, if-eq, ok-injective,
}
use mathlib.Core.Path.{subst}
use vasily.Base.Int.{ℤ, pos, negsuc}
use vasily.Backend.{Addr, Packet}
use vasily.History.{waiting, PingResult, new_history, rev_results}
use vasily.History.Calls.{find, find_listed}
use vasily.Pinger.{Options, n_pings_of, history_of, handle_reply}
use vasily.Pinger.Run.{
  Sending, idle, handing, closed, Pinger, Event, ticks, hands_over, sees_close, receives, times_out,
  closes, aborts, stops, new_pinger, send_step, hand_step, close_step, stop_step, step, run,
}
use vasily.Pinger.Run.Slots.{handle_reply-Settles}
use vasily.Pinger.Run.Waiting.{
  Inv, Queued, InHand, settled-Inv, hand_over-Inv, closed-Inv, tick-Inv,
}
use vasily.Pinger.Run.Firing.{fire-Inv}

-- The history option is never zero.
history_of-ne-zero : (o : Option Options) → history_of o ≢ pos 0
unfolding history_of
history_of-ne-zero none e = ground arith
history_of-ne-zero (some o) e = ground arith

positive : (n : ℕ) → pos n ≢ pos 0 → 0 < n
positive zero h = absurd (h refl)
positive (suc n) h = omega arith

fresh-Inv :
    (n : ℕ) (left : ℤ)
    → 0 < n
    → Inv 0 (record {
      hist = new_history n;
      pings_remaining = left;
      next_seq = 0;
      sending = idle;
      timeouts = [];
      shutdown = false;
      done = false;
      running = true;
      finished = false;
    })
unfolding new_history
fresh-Inv n left h = record {
  counted = record { room = rw length-replicate h; last = refl };
  numbered = refl;
  tracked = λ t l w. absurd (omega (arith, l.0));
  drained = λ f. absurd (cc);
  ended = λ s. absurd (cc);
}

pub new_pinger-Inv :
    (conn : Result (Unit {0})) (opts : Option Options) (p : Pinger)
    → new_pinger conn opts ≡ ok p
    → Inv 0 p
unfolding new_pinger
new_pinger-Inv conn opts p e =
    let (u, c, r) = >>=-eq-ok conn _ e in of_length (history_of opts) (history_of-ne-zero opts) r
  where
    of_length :
        (len : ℤ)
        → len ≢ pos 0
        → elim len as (λ x. Result Pinger) [
          | pos n ↦ ok (record {
            hist = new_history n;
            pings_remaining = n_pings_of opts;
            next_seq = 0;
            sending = idle;
            timeouts = [];
            shutdown = false;
            done = false;
            running = true;
            finished = false;
          })
          | negsuc k ↦ panic
        ]
          ≡ ok p
        → Inv 0 p
    of_length (pos n) ne r =
        subst (Inv 0) (ok-injective r) (fresh-Inv n (n_pings_of opts) (positive n ne))
    of_length (negsuc k) ne r = absurd (cc)

module _ (sqrt_ratio : ℤ → ℕ → ℤ) (n : ℕ) (p p' : Pinger) (v : Inv n p) where
  -- A step that only changes the flags that the invariant does not read, or nothing.
  kept-Inv : p ≡ p' → (m : ℕ) × Inv m p'
  kept-Inv e = (n, subst (Inv n) e v)

  send_step-Inv :
      (s : Sending) (written : Result (Unit {0})) (now : ℕ)
      → p.sending ≡ s
      → send_step sqrt_ratio p s written now ≡ ok p'
      → (m : ℕ) × Inv m p'
  send_step-Inv idle written now e q = tick-Inv n p p' written now e v q
  send_step-Inv (handing seq) written now e q = kept-Inv (ok-injective q)
  send_step-Inv closed written now e q = kept-Inv (ok-injective q)

  hand_step-Inv :
      (s : Sending) (deadline : ℕ)
      → p.sending ≡ s
      → hand_step sqrt_ratio p s deadline ≡ ok p'
      → (m : ℕ) × Inv m p'
  hand_step-Inv idle deadline e q = kept-Inv (ok-injective q)
  hand_step-Inv (handing seq) deadline e q =
      (n, subst (Inv n) (ok-injective q) (hand_over-Inv n p seq deadline e v))
  hand_step-Inv closed deadline e q = kept-Inv (ok-injective q)

  shut-Inv : p.sending ≡ closed → Inv n (record p { shutdown = true })
  shut-Inv e = record {
    counted = v.counted;
    numbered = v.numbered;
    tracked = v.tracked;
    drained = λ f. ((v.drained f).0, refl);
    ended = λ s. e;
  }

  close_step-Inv :
      (s : Sending) → p.sending ≡ s → close_step sqrt_ratio p s ≡ ok p' → (m : ℕ) × Inv m p'
  close_step-Inv idle e q = kept-Inv (ok-injective q)
  close_step-Inv (handing seq) e q = kept-Inv (ok-injective q)
  close_step-Inv closed e q = (n, subst (Inv n) (ok-injective q) (shut-Inv e))

  stop_step-Inv :
      (s : Sending) → p.sending ≡ s → stop_step sqrt_ratio p s ≡ ok p' → (m : ℕ) × Inv m p'
  stop_step-Inv idle e q =
      (n, subst (Inv n) (ok-injective q) (closed-Inv n p p.pings_remaining e v))
  stop_step-Inv (handing seq) e q = kept-Inv (ok-injective q)
  stop_step-Inv closed e q = kept-Inv (ok-injective q)

  flagged-Inv : (runs closing : Bool) → Inv n (record p { running = runs; done = closing })
  flagged-Inv runs closing = record {
    counted = v.counted;
    numbered = v.numbered;
    tracked = v.tracked;
    drained = v.drained;
    ended = v.ended;
  }

  receive-Inv :
      (since : ℕ → ℤ) (pkt : Packet) (peer : Addr)
      → (handle_reply sqrt_ratio since p.hist pkt peer >>= λ h. ok (record p { hist = h })) ≡ ok p'
      → (m : ℕ) × Inv m p'
  receive-Inv since pkt peer q =
      let (h, m, r) = >>=-eq-ok (handle_reply sqrt_ratio since p.hist pkt peer) _ q in
      let s = handle_reply-Settles sqrt_ratio since p.hist h pkt peer m in
      (n, subst (Inv n) (ok-injective r) (settled-Inv n p h s v))

  step-Inv : (e : Event) → step sqrt_ratio p e ≡ ok p' → (m : ℕ) × Inv m p'
  unfolding step
  step-Inv (ticks written now) q = send_step-Inv p.sending written now refl q
  step-Inv (hands_over deadline) q = elim (if-eq p.running _ _ q) [
    | inl (_, r) ↦ hand_step-Inv p.sending deadline refl r
    | inr (_, r) ↦ kept-Inv (ok-injective r)
  ]
  step-Inv sees_close q = elim (if-eq p.running _ _ q) [
    | inl (_, r) ↦ close_step-Inv p.sending refl r
    | inr (_, r) ↦ kept-Inv (ok-injective r)
  ]
  step-Inv (receives pkt peer since) q = elim (if-eq p.running _ _ q) [
    | inl (_, r) ↦ receive-Inv since pkt peer r
    | inr (_, r) ↦ kept-Inv (ok-injective r)
  ]
  step-Inv (times_out since) q = elim (if-eq p.running _ _ q) [
    | inl (_, r) ↦ (n, fire-Inv sqrt_ratio since n p p' p.timeouts refl v r)
    | inr (_, r) ↦ kept-Inv (ok-injective r)
  ]
  step-Inv closes q = elim (if-eq p.done _ _ q) [
    | inl (_, r) ↦ absurd (cc)
    | inr (_, r) ↦ (n, subst (Inv n) (ok-injective r) (flagged-Inv p.running true))
  ]
  step-Inv aborts q = elim (if-eq p.done _ _ q) [
    | inl (_, r) ↦ (n, subst (Inv n) (ok-injective r) (flagged-Inv false p.done))
    | inr (_, r) ↦ kept-Inv (ok-injective r)
  ]
  step-Inv stops q = elim (if-eq p.done _ _ q) [
    | inl (_, r) ↦ stop_step-Inv p.sending refl r
    | inr (_, r) ↦ kept-Inv (ok-injective r)
  ]

module _ (sqrt_ratio : ℤ → ℕ → ℤ) where
  pub run-Inv :
      (es : List Event) (n : ℕ) (p p' : Pinger)
      → Inv n p
      → run sqrt_ratio p es ≡ ok p'
      → (m : ℕ) × Inv m p'
  unfolding run
  run-Inv [] n p p' v q = (n, subst (Inv n) (ok-injective q) v)
  run-Inv (e ∷ es) n p p' v q =
      let (p1, q1, q2) = >>=-eq-ok (step sqrt_ratio p e) _ q in
      let (m, v1) = step-Inv sqrt_ratio n p p1 v e q1 in run-Inv es m p1 p' v1 q2

  -- Whatever the order of ticks, replies, timers and hand-overs, once `Run` has returned by
  -- "finished shutdown" no result that `RevResults` lists is waiting: every ping was answered or was
  -- recorded as dropped.
  pub run_finished :
      (conn : Result (Unit {0})) (opts : Option Options) (es : List Event) (p p' : Pinger) (seq : ℕ)
      (r : PingResult)
      → new_pinger conn opts ≡ ok p
      → run sqrt_ratio p es ≡ ok p'
      → p'.finished ≡ true
      → find seq (rev_results p'.hist) ≡ some r
      → r.result_type ≢ waiting
  run_finished conn opts es p p' seq r start q f listed w =
      let (n, v) = run-Inv es 0 p p' (new_pinger-Inv conn opts p start) q in
      let (lt, near, same) = find_listed n seq p'.hist r v.counted listed in
      let (empty, shut) = v.drained f in
      elim (v.tracked seq (lt, near) (rw (← same, w))) [
        | inl queued ↦ absurd (subst (Queued seq) empty queued)
        | inr hand ↦ absurd (subst (InHand seq) (v.ended shut) hand)
      ]
