-- ===== src/Pinger/Run/Firing.antt =====
-- The first timer of the queue fires.
use vasily.Base.{
  ℕ, ◌%◌, ◌≡◌, ap, ◌∙◌, ◌⊎◌, inl, inr, Bool, true, false, not, ◌&&◌, Bool-cases, List, [], ◌∷◌,
  arith, ok, >>=-eq-ok,
}
use mathlib.Core.Path.{subst}
use vasily.Base.Int.{ℤ, pos}
use vasily.History.{ResultType, waiting, dropped, PingHistory, capacity, entry, rev_results}
use vasily.History.Window.{IsAt}
use vasily.History.Calls.{timed, find, find_live, find-put_self}
use vasily.Pinger.{is_waiting, maybe_record_timeout}
use vasily.Pinger.Replies.{listed, maybe_record_timeout_waiting, maybe_record_timeout_answered}
use vasily.Pinger.Run.{TimeoutDatum, Pinger, fire, is_empty}
use vasily.Pinger.Run.Slots.{Settles, maybe_record_timeout-Settles}
use vasily.Pinger.Run.Waiting.{Queued, InHand, IsLive, waits, Inv}

waiting_of : (t : ResultType) → is_waiting t ≡ true → t ≡ waiting
waiting_of t h = ground arith

-- After its own timer a live ping does not wait.
timed_out_waits :
    (sqrt_ratio : ℤ → ℕ → ℤ) (since : ℕ → ℤ) (n t : ℕ) (h h' : PingHistory)
    → IsAt n h
    → IsLive n h t
    → maybe_record_timeout sqrt_ratio since h (pos t) ≡ ok h'
    → waits h' t ≡ false
timed_out_waits sqrt_ratio since n t h h' v l e =
    let found = find_live n t h v l.0 l.1 in
    elim (Bool-cases (waits h t)) [
      | inl unanswered ↦
          let w = waiting_of (entry h.history (t % capacity h)).result_type unanswered in
          let (h1, e1, at, cap, window, n1, f1) =
            maybe_record_timeout_waiting sqrt_ratio since n t h v l.0 l.1 (rw found w) in
          let same : h1 ≡ h' = cc in
          let drop = timed since (record (listed h t) { result_type = dropped }) in
          let put_in = find-put_self t drop (rev_results h) found in
          let now_found = find_live n t h1 at l.0 (rw cap l.1) in
          let entry_is : entry h1.history (t % capacity h1) ≡ drop = cc (ap (find t) window) in
          subst (λ k. waits k t ≡ false) same (rw entry_is)
      | inr answered ↦
          let e1 = maybe_record_timeout_answered sqrt_ratio since n t h v l.0 (rw found answered) in
          let same : h ≡ h' = cc in subst (λ k. waits k t ≡ false) same answered
    ]

-- The head of the queue fires: whoever still waits is further back, or on the way.
fired-tracked :
    (sqrt_ratio : ℤ → ℕ → ℤ) (since : ℕ → ℤ) (n : ℕ) (p : Pinger) (h : PingHistory)
    (td : TimeoutDatum) (tds : List TimeoutDatum)
    → p.timeouts ≡ td ∷ tds
    → Inv n p
    → maybe_record_timeout sqrt_ratio since p.hist (pos td.seq) ≡ ok h
    → Settles p.hist h
    → (t : ℕ) → IsLive n h t
    → waits h t ≡ true
    → Queued t tds ⊎ InHand t p.sending
fired-tracked sqrt_ratio since n p h td tds e v m s t l w =
    let l' : IsLive n p.hist t = rw s.same_room at l in
    let before = s.settled (t % capacity p.hist) (rw s.same_room at w) in
    elim (subst (λ q. Queued t q ⊎ InHand t p.sending) e (v.tracked t l' before)) [
      | inl (inl own) ↦
          let m' = subst (λ k. maybe_record_timeout sqrt_ratio since p.hist (pos k) ≡ ok h) own m in
          absurd (cc (timed_out_waits sqrt_ratio since n t p.hist h v.counted l' m'))
      | inl (inr later) ↦ inl later
      | inr hand ↦ inr hand
    ]

pub fire-Inv :
    (sqrt_ratio : ℤ → ℕ → ℤ) (since : ℕ → ℤ) (n : ℕ) (p p' : Pinger) (tds : List TimeoutDatum)
    → p.timeouts ≡ tds
    → Inv n p
    → fire sqrt_ratio p tds since ≡ ok p'
    → Inv n p'
unfolding fire
fire-Inv sqrt_ratio since n p p' [] e v q = subst (Inv n) (some_eq q) v
  where
    some_eq : ok p ≡ ok p' → p ≡ p'
    some_eq q = cc
fire-Inv sqrt_ratio since n p p' (td ∷ tds) e v q =
    let (h, m, r) = >>=-eq-ok (maybe_record_timeout sqrt_ratio since p.hist (pos td.seq)) _ q in
    let s = maybe_record_timeout-Settles sqrt_ratio since p.hist h (pos td.seq) m in
    let over = p.shutdown && is_empty tds in
    let next = record p { hist = h; timeouts = tds; running = not over; finished = over } in
    let same : next ≡ p' = cc in
    subst (Inv n) same (record {
      counted = record {
        room = rw s.same_room v.counted.room;
        last = s.same_last ∙ v.counted.last;
      };
      numbered = v.numbered;
      tracked = fired-tracked sqrt_ratio since n p h td tds e v m s;
      drained = drained_lem p.shutdown tds;
      ended = v.ended;
    })
  where
    drained_lem :
        (b : Bool) (tds : List TimeoutDatum) → b && is_empty tds ≡ true → (tds ≡ []) × (b ≡ true)
    drained_lem b tds h = ground arith
