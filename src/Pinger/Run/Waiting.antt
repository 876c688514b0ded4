-- ===== src/Pinger/Run/Waiting.antt =====
-- internal/pinger/pinger.go: the pings that wait and their timeouts.
use vasily.Base.{
  ℕ, suc, ◌+◌, ◌%◌, ◌^◌, ◌≤◌, ◌<◌, ◌≡◌, refl, sym, ap, ◌∙◌, ◌⊎◌, inl, inr, Bool, true, ◌==◌, ==_iff,
  Bool-cases, List, [], ◌∷◌, ◌++◌, length-set, arith, Result, ok, err, panic, >>=-eq-ok,
}
use mathlib.Core.Path.{subst}
use native.Mathlib.Decide.{ℕ_discrete}
use vasily.Base.Int.{ℤ, pos, ltb_ℤ, ◌-ℤ◌}
use vasily.History.{PingHistory, capacity, entry, add}
use vasily.History.Window.{
  IsAt, added, fresh_result, added-IsAt, add_next, add_out_of_order, entry-set_mod,
}
use vasily.Pinger.{is_waiting, send_ping}
use vasily.Pinger.Run.{
  Sending, idle, handing, closed, TimeoutDatum, Pinger, after_send, tick, hand_over,
}
use vasily.Pinger.Run.Slots.{Settles}

-- A timeout for the number is queued.
abbrev pub Queued : ℕ → List TimeoutDatum → Type 0
Queued t [] = ⊥
Queued t (td ∷ tds) = (td.seq ≡ t) ⊎ Queued t tds

-- The send loop's number, when `n` pings have been sent.
abbrev pub Numbered : ℕ → ℕ → Sending → Type 0
Numbered n next_seq idle = next_seq ≡ n % 2 ^ 16
Numbered n next_seq (handing seq) = seq + 1 ≡ n
Numbered n next_seq closed = Unit {0}

-- The timeout is still on its way to the queue.
abbrev pub InHand : ℕ → Sending → Type 0
InHand t idle = ⊥
InHand t (handing seq) = seq ≡ t
InHand t closed = ⊥

abbrev pub IsLive : ℕ → PingHistory → ℕ → Type 0
IsLive n h t = (t < n) × (n ≤ t + capacity h)

abbrev pub waits : PingHistory → ℕ → Bool
waits h t = is_waiting (entry h.history (t % capacity h)).result_type

pub record Inv (n : ℕ) (p : Pinger) : Type 0 where
  pub counted : IsAt n p.hist
  pub numbered : Numbered n p.next_seq p.sending
  pub tracked :
      (t : ℕ) → IsLive n p.hist t → waits p.hist t ≡ true → Queued t p.timeouts ⊎ InHand t p.sending
  pub drained : p.finished ≡ true → (p.timeouts ≡ []) × (p.shutdown ≡ true)
  pub ended : p.shutdown ≡ true → p.sending ≡ closed

-- A history that settles keeps the invariant.
pub settled-Inv :
    (n : ℕ) (p : Pinger) (h : PingHistory)
    → Settles p.hist h
    → Inv n p
    → Inv n (record p { hist = h })
settled-Inv n p h s v = record {
  counted = record { room = rw s.same_room v.counted.room; last = s.same_last ∙ v.counted.last };
  numbered = v.numbered;
  tracked = λ t l w.
      v.tracked t (rw s.same_room at l) (s.settled (t % capacity p.hist) (rw s.same_room at w));
  drained = v.drained;
  ended = v.ended;
}

Queued-append :
    (t : ℕ) (tds : List TimeoutDatum) (td : TimeoutDatum)
    → Queued t tds ⊎ (td.seq ≡ t)
    → Queued t (tds ++ (td ∷ []))
Queued-append t [] td (inl q) = absurd q
Queued-append t [] td (inr e) = inl e
Queued-append t (x ∷ tds) td (inl (inl e)) = inl e
Queued-append t (x ∷ tds) td (inl (inr q)) = inr (Queued-append t tds td (inl q))
Queued-append t (x ∷ tds) td (inr e) = inr (Queued-append t tds td (inr e))

-- The timeout of the ping just sent joins the queue.
pub hand_over-Inv :
    (n : ℕ) (p : Pinger) (seq deadline : ℕ)
    → p.sending ≡ handing seq
    → Inv n p
    → Inv n (hand_over p seq deadline)
unfolding hand_over
hand_over-Inv n p seq deadline e v = record {
  counted = v.counted;
  numbered = ap (λ k. k % 2 ^ 16) (subst (Numbered n p.next_seq) e v.numbered);
  tracked = λ t l w. inl (
      Queued-append t p.timeouts _
        (subst (λ s. Queued t p.timeouts ⊎ InHand t s) e (v.tracked t l w)));
  drained = λ f. absurd (cc (v.ended (v.drained f).1));
  ended = λ s. absurd (cc (v.ended s));
}

-- The send loop stops before it sends.
pub closed-Inv :
    (n : ℕ) (p : Pinger) (left : ℤ)
    → p.sending ≡ idle
    → Inv n p
    → Inv n (record p { pings_remaining = left; sending = closed })
closed-Inv n p left e v = record {
  counted = v.counted;
  numbered = tt;
  tracked = λ t l w. subst (λ s. Queued t p.timeouts ⊎ InHand t s) e (v.tracked t l w);
  drained = v.drained;
  ended = λ s. refl;
}

-- The number of the ping that is sent, if the history takes it.
sent_number :
    (n : ℕ) (h h' : PingHistory) (seq now : ℕ)
    → IsAt n h
    → add h (pos seq) now ≡ ok h'
    → (seq ≡ n) × (h' ≡ added h n now)
sent_number n h h' seq now v e = elim (ℕ_discrete seq n) [
  | yes same ↦
      let e' = subst (λ k. add h (pos k) now ≡ ok h') same e in (same, cc (add_next n h now v))
  | no other ↦ absurd (cc (add_out_of_order n h (pos seq) now v (λ q. other (cc))))
]

waits-added :
    (n t : ℕ) (h : PingHistory) (now : ℕ)
    → 0 < capacity h
    → t < n
    → n < t + capacity h
    → waits (added h n now) t ≡ waits h t
waits-added n t h now room lt near = elim (Bool-cases (t == n)) [
  | inl same ↦ absurd (omega (arith, (==_iff t n).0 same))
  | inr other ↦ rw (
    length-set,
    entry-set_mod h.history n t (fresh_result now) room (omega arith) (omega arith),
    other,
  )
]

sent-Inv :
    (n : ℕ) (p : Pinger) (left : ℤ) (now : ℕ)
    → p.sending ≡ idle
    → Inv n p
    → Inv
        (suc n)
        (record p { hist = added p.hist n now; pings_remaining = left; sending = handing n })
sent-Inv n p left now e v = record {
  counted = added-IsAt n p.hist now v.counted;
  numbered = omega arith;
  tracked = λ t l w. elim (ℕ_discrete n t) [
    | yes same ↦ inr same
    | no other ↦
        let l' : IsLive (suc n) p.hist t = rw length-set at l in
        let still =
          sym (waits-added n t p.hist now v.counted.room (omega arith) (omega arith)) ∙ w in
        elim (v.tracked t (omega arith) still) [
          | inl q ↦ inl q
          | inr q ↦ absurd (subst (InHand t) e q)
        ]
  ];
  drained = λ f. absurd (cc (v.ended (v.drained f).1));
  ended = λ s. absurd (cc (v.ended s));
}

after_send-Inv :
    (n : ℕ) (p p' : Pinger) (written : Result (Unit {0})) (now : ℕ) (r : Result PingHistory)
    → p.sending ≡ idle
    → Inv n p
    → send_ping written p.hist (pos p.next_seq) now ≡ r
    → after_send p r ≡ ok p'
    → (m : ℕ) × Inv m p'
unfolding after_send send_ping
after_send-Inv n p p' written now (ok h) e v s q =
    let (u, w, a) = >>=-eq-ok written _ s in
    let (number, new) = sent_number n p.hist h p.next_seq now v.counted a in
    let left = p.pings_remaining -ℤ pos 1 in
    let next = record p {
      hist = added p.hist n now;
      pings_remaining = left;
      sending = handing n;
    } in
    let same : next ≡ p' = cc in (suc n, subst (Inv (suc n)) same (sent-Inv n p left now e v))
after_send-Inv n p p' written now (err x) e v s q =
    let left = p.pings_remaining -ℤ pos 1 in
    let same : record p { pings_remaining = left; sending = closed } ≡ p' = cc in
    (n, subst (Inv n) same (closed-Inv n p left e v))
after_send-Inv n p p' written now panic e v s q = absurd (cc)

pub tick-Inv :
    (n : ℕ) (p p' : Pinger) (written : Result (Unit {0})) (now : ℕ)
    → p.sending ≡ idle
    → Inv n p
    → tick p written now ≡ ok p'
    → (m : ℕ) × Inv m p'
unfolding tick
tick-Inv n p p' written now e v q = elim (Bool-cases (ltb_ℤ (pos 0) p.pings_remaining)) [
  | inl more ↦
      after_send-Inv n p p' written now (send_ping written p.hist (pos p.next_seq) now) e v refl
        (rw more at q)
  | inr spent ↦
      let same : record p { sending = closed } ≡ p' = ground arith in
      (n, subst (Inv n) same (closed-Inv n p p.pings_remaining e v))
]
