-- ===== src/Pinger/Run/Endings.antt =====
-- internal/pinger/pinger.go: the ends of a run.
use vasily.Base.{
  ℕ, ◌^◌, ◌≡◌, ◌≢◌, refl, sym, ap, ◌∙◌, inl, inr, true, false, if◌then◌else◌, List, [], ◌∷◌, All,
  arith, Result, ok, panic, ◌>>=◌, >>=-eq-ok, if-eq, ok-injective,
}
use mathlib.Core.Path.{subst}
use vasily.Base.Int.{ℤ, pos, ltb_ℤ}
use vasily.Backend.{Addr, Packet}
use vasily.History.{add}
use vasily.History.Window.{add_out_of_order}
use vasily.Pinger.{send_ping, handle_reply}
use vasily.Pinger.Run.{
  Sending, idle, handing, closed, Pinger, Event, ticks, hands_over, sees_close, receives, times_out,
  closes, aborts, stops, after_send, send_step, hand_step, close_step, tick, fire, step, run,
}
use vasily.Pinger.Run.Waiting.{Inv, Numbered}

abbrev pub IsNotClose : Event → Type 0
IsNotClose e = e ≢ closes

-- The send loop has returned and the main loop knows it, but no timeout is left to end the run.
pub record IsStranded (p : Pinger) : Type 0 where
  pub running : p.running ≡ true
  pub not_closed : p.done ≡ false
  pub sent_all : p.sending ≡ closed
  pub empty : p.timeouts ≡ []

module _ (sqrt_ratio : ℤ → ℕ → ℤ) (p p' : Pinger) (s : IsStranded p) where
  same-IsStranded : p ≡ p' → IsStranded p'
  same-IsStranded e = subst IsStranded e s

  shut-IsStranded : IsStranded (record p { shutdown = true })
  shut-IsStranded = record {
    running = s.running;
    not_closed = s.not_closed;
    sent_all = s.sent_all;
    empty = s.empty;
  }

  send_step-IsStranded :
      (q : Sending) (written : Result (Unit {0})) (now : ℕ)
      → q ≡ closed
      → send_step sqrt_ratio p q written now ≡ ok p'
      → IsStranded p'
  send_step-IsStranded idle written now e r = absurd (cc)
  send_step-IsStranded (handing seq) written now e r = absurd (cc)
  send_step-IsStranded closed written now e r = same-IsStranded (ok-injective r)

  hand_step-IsStranded :
      (q : Sending) (deadline : ℕ)
      → q ≡ closed
      → hand_step sqrt_ratio p q deadline ≡ ok p'
      → IsStranded p'
  hand_step-IsStranded idle deadline e r = absurd (cc)
  hand_step-IsStranded (handing seq) deadline e r = absurd (cc)
  hand_step-IsStranded closed deadline e r = same-IsStranded (ok-injective r)

  close_step-IsStranded :
      (q : Sending) → q ≡ closed → close_step sqrt_ratio p q ≡ ok p' → IsStranded p'
  close_step-IsStranded idle e r = absurd (cc)
  close_step-IsStranded (handing seq) e r = absurd (cc)
  close_step-IsStranded closed e r = subst IsStranded (ok-injective r) shut-IsStranded

  fire-IsStranded : (since : ℕ → ℤ) → fire sqrt_ratio p p.timeouts since ≡ ok p' → IsStranded p'
  unfolding fire
  fire-IsStranded since r =
      let r' = subst (λ q. fire sqrt_ratio p q since ≡ ok p') s.empty r in
      same-IsStranded (ok-injective r')

  receive-IsStranded :
      (since : ℕ → ℤ) (pkt : Packet) (peer : Addr)
      → (handle_reply sqrt_ratio since p.hist pkt peer >>= λ h. ok (record p { hist = h })) ≡ ok p'
      → IsStranded p'
  receive-IsStranded since pkt peer q =
      let (h, m, r) = >>=-eq-ok (handle_reply sqrt_ratio since p.hist pkt peer) _ q in
      subst IsStranded (ok-injective r) (record {
        running = s.running;
        not_closed = s.not_closed;
        sent_all = s.sent_all;
        empty = s.empty;
      })

  step-IsStranded : (e : Event) → IsNotClose e → step sqrt_ratio p e ≡ ok p' → IsStranded p'
  unfolding step
  step-IsStranded (ticks written now) n q = send_step-IsStranded p.sending written now s.sent_all q
  step-IsStranded (hands_over deadline) n q = elim (if-eq p.running _ _ q) [
    | inl (_, r) ↦ hand_step-IsStranded p.sending deadline s.sent_all r
    | inr (_, r) ↦ same-IsStranded (ok-injective r)
  ]
  step-IsStranded sees_close n q = elim (if-eq p.running _ _ q) [
    | inl (_, r) ↦ close_step-IsStranded p.sending s.sent_all r
    | inr (_, r) ↦ same-IsStranded (ok-injective r)
  ]
  step-IsStranded (receives pkt peer since) n q = elim (if-eq p.running _ _ q) [
    | inl (_, r) ↦ receive-IsStranded since pkt peer r
    | inr (_, r) ↦ same-IsStranded (ok-injective r)
  ]
  step-IsStranded (times_out since) n q = elim (if-eq p.running _ _ q) [
    | inl (_, r) ↦ fire-IsStranded since r
    | inr (_, r) ↦ same-IsStranded (ok-injective r)
  ]
  step-IsStranded closes n q = absurd (n refl)
  step-IsStranded aborts n q = elim (if-eq p.done _ _ q) [
    | inl (d, r) ↦ absurd (cc s.not_closed)
    | inr (_, r) ↦ same-IsStranded (ok-injective r)
  ]
  step-IsStranded stops n q = elim (if-eq p.done _ _ q) [
    | inl (d, r) ↦ absurd (cc s.not_closed)
    | inr (_, r) ↦ same-IsStranded (ok-injective r)
  ]

module _ (sqrt_ratio : ℤ → ℕ → ℤ) where
  -- If the send loop has returned when no timeout is queued, then `Run` never returns, whatever
  -- happens afterwards, unless `Close` is called: the end is looked for only when a timer fires.
  pub run_stranded :
      (es : List Event) (p p' : Pinger)
      → IsStranded p
      → All IsNotClose es
      → run sqrt_ratio p es ≡ ok p'
      → (p'.running ≡ true) × (p'.timeouts ≡ [])
  unfolding run
  run_stranded [] p p' s n q =
      let s' = subst IsStranded (ok-injective q) s in (s'.running, s'.empty)
  run_stranded (e ∷ es) p p' s n q =
      let (p1, q1, q2) = >>=-eq-ok (step sqrt_ratio p e) _ q in
      run_stranded es p1 p' (step-IsStranded sqrt_ratio p p1 s e n.0 q1) n.1 q2

  tick_panics :
      (p : Pinger) (now : ℕ)
      → ltb_ℤ (pos 0) p.pings_remaining ≡ true
      → add p.hist (pos p.next_seq) now ≡ panic
      → tick p (ok tt) now ≡ panic
  unfolding tick send_ping
  tick_panics p now more full =
      ap
        (λ b.
          if b
          then after_send p (add p.hist (pos p.next_seq) now)
          else ok (record p { sending = closed }))
        more
      ∙ ap (after_send p) full

  -- After 65536 pings the send loop's number is 0 again, and the next tick panics in `Add`, in every
  -- state that a run can reach.
  pub tick_wraps :
      (p : Pinger) (now : ℕ)
      → Inv (2 ^ 16) p
      → p.sending ≡ idle
      → ltb_ℤ (pos 0) p.pings_remaining ≡ true
      → step sqrt_ratio p (ticks (ok tt) now) ≡ panic
  unfolding step
  tick_wraps p now v e more =
      subst (λ s. send_step sqrt_ratio p s (ok tt) now ≡ panic) (sym e)
        (tick_panics p now more
          (add_out_of_order (2 ^ 16) p.hist (pos p.next_seq) now v.counted (λ q. other (cc))))
    where
      zero_again : p.next_seq ≡ 0
      zero_again = subst (Numbered (2 ^ 16) p.next_seq) e v.numbered

      other : p.next_seq ≢ 2 ^ 16
      other q = omega (arith, zero_again)
