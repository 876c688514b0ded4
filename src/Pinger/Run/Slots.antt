-- ===== src/Pinger/Run/Slots.antt =====
-- What a call does to the entries of the ring, for any sequence number in a packet.
use vasily.Base.{
  ℕ, zero, suc, ◌≡◌, refl, sym, ap, ◌∙◌, inl, inr, Bool, true, not, if◌then◌else◌, Bool-cases, some,
  List, [], ◌∷◌, length, length-set, set, arith, ok, ◌>>=◌, >>=-eq-ok,
}
use mathlib.Core.Path.{subst}
use vasily.Base.Int.{ℤ, pos, ◌+ℤ◌, ◌-ℤ◌, ltb_ℤ}
use vasily.Backend.{Addr, Packet}
use vasily.History.{
  ResultType, waiting, dropped, success, duplicate, ttl_exceeded, unreachable, PingResult,
  PingHistory, capacity, entry, slot, get, record_result, add_stats_for, is_duplicate,
}
use vasily.Pinger.{is_open, is_waiting, reply_type, handle_reply, maybe_record_timeout}

-- `Get` and `Record` agree on which numbers are too old.
guards_agree :
    (last seq : ℤ) (c : ℕ) → ltb_ℤ seq (last -ℤ pos c +ℤ pos 1) ≡ not (ltb_ℤ (last -ℤ seq) (pos c))
unfolding ◌-ℤ◌ ◌+ℤ◌
guards_agree last seq c = ground arith

-- Nothing becomes waiting, the ring keeps its size and the numbering its place.
pub record Settles (h h' : PingHistory) : Type 0 where
  pub same_room : capacity h' ≡ capacity h
  pub same_last : h'.last_seq ≡ h.last_seq
  pub settled :
      (i : ℕ)
      → is_waiting (entry h'.history i).result_type ≡ true
      → is_waiting (entry h.history i).result_type ≡ true

Settles-refl : (h : PingHistory) → Settles h h
Settles-refl h = record { same_room = refl; same_last = refl; settled = λ i w. w }

entry-set_waiting :
    (rs : List PingResult) (j i : ℕ) (r : PingResult)
    → (is_waiting r.result_type ≡ true → is_waiting (entry rs j).result_type ≡ true)
    → is_waiting (entry (set rs j r) i).result_type ≡ true
    → is_waiting (entry rs i).result_type ≡ true
entry-set_waiting [] j i r h w = w
entry-set_waiting (x ∷ rs) zero zero r h w = h w
entry-set_waiting (x ∷ rs) zero (suc i) r h w = w
entry-set_waiting (x ∷ rs) (suc j) zero r h w = w
entry-set_waiting (x ∷ rs) (suc j) (suc i) r h w = entry-set_waiting rs j i r h w

-- The number is not too old to be recorded.
abbrev is_live : PingHistory → ℤ → Bool
is_live h seq = ltb_ℤ (h.last_seq -ℤ seq) (pos (capacity h))

get-slot :
    (h : PingHistory) (seq : ℤ)
    → is_live h seq ≡ true
    → get h seq ≡ (slot seq (capacity h) >>= λ i. ok (entry h.history i))
unfolding get
get-slot h seq live = rw (guards_agree h.last_seq seq (capacity h), live)

-- A reply makes nothing wait that did not.
reply_waits :
    (old t : ResultType) (code : ℕ)
    → (if is_open old then reply_type code old else ok duplicate) ≡ ok t
    → is_waiting t ≡ true
    → is_waiting old ≡ true
unfolding reply_type
reply_waits waiting t code e w = refl
reply_waits dropped t code e w = ground arith
reply_waits success t code e w = ground arith
reply_waits duplicate t code e w = ground arith
reply_waits ttl_exceeded t code e w = ground arith
reply_waits unreachable t code e w = ground arith

module _ (sqrt_ratio : ℤ → ℕ → ℤ) where
  abbrev stored : (ℕ → ℤ) → PingHistory → ℕ → PingResult → PingHistory
  stored since h i r =
      let t = record r { latency = since r.time } in
      let h' = record h { history = set h.history i t } in
      if is_duplicate r.result_type then h' else add_stats_for sqrt_ratio h' t

  history-stored :
      (since : ℕ → ℤ) (h : PingHistory) (i : ℕ) (r : PingResult)
      → (stored since h i r).history ≡ set h.history i (record r { latency = since r.time })
  unfolding add_stats_for
  history-stored since h i r = ground arith

  last_seq-stored :
      (since : ℕ → ℤ) (h : PingHistory) (i : ℕ) (r : PingResult)
      → (stored since h i r).last_seq ≡ h.last_seq
  unfolding add_stats_for
  last_seq-stored since h i r = ground arith

  stored-Settles :
      (since : ℕ → ℤ) (h : PingHistory) (i : ℕ) (r : PingResult)
      → (is_waiting r.result_type ≡ true → is_waiting (entry h.history i).result_type ≡ true)
      → Settles h (stored since h i r)
  stored-Settles since h i r w =
      let t = record r { latency = since r.time } in
      let same = history-stored since h i r in
      record {
        same_room = ap length same ∙ length-set h.history i t;
        same_last = last_seq-stored since h i r;
        settled = λ j q.
            entry-set_waiting h.history i j t w
              (subst (λ rs. is_waiting (entry rs j).result_type ≡ true) same q);
      }

  -- A record of a result that waits only if the one that `Get` gives does.
  record_result-Settles :
      (since : ℕ → ℤ) (h h' : PingHistory) (seq : ℤ) (old r r' : PingResult)
      → get h seq ≡ ok old
      → (is_waiting r.result_type ≡ true → is_waiting old.result_type ≡ true)
      → record_result sqrt_ratio since h seq r ≡ ok (r', h')
      → Settles h h'
  unfolding record_result
  record_result-Settles since h h' seq old r r' g w e = elim (Bool-cases (is_live h seq)) [
    | inl live ↦
        let (i, at, read) =
          >>=-eq-ok (slot seq (capacity h)) (λ i. ok (entry h.history i))
            (sym (get-slot h seq live) ∙ g) in
        let same : h' ≡ stored since h i r = ground arith in
        let same_entry : entry h.history i ≡ old = cc in
        rw same (stored-Settles since h i r (rw same_entry w))
    | inr late ↦ let same : h' ≡ h = ground arith in rw same (Settles-refl h)
  ]

  -- A reply settles, whatever number it has.
  pub handle_reply-Settles :
      (since : ℕ → ℤ) (h h' : PingHistory) (pkt : Packet) (peer : Addr)
      → handle_reply sqrt_ratio since h pkt peer ≡ ok h'
      → Settles h h'
  unfolding handle_reply
  handle_reply-Settles since h h' pkt peer e =
      let (old, g, e1) = >>=-eq-ok (get h pkt.seq) _ e in
      let (t, et, e2) =
        >>=-eq-ok
          (if is_open old.result_type
            then reply_type pkt.packet_type old.result_type
            else ok duplicate)
          _ e1 in
      let r = record old { result_type = t; peer = some peer } in
      let ((r', h1), er, e3) = >>=-eq-ok (record_result sqrt_ratio since h pkt.seq r) _ e2 in
      record_result-Settles since h h' pkt.seq old r r' g
        (reply_waits old.result_type t pkt.packet_type et) (er ∙ ground arith)

  pub maybe_record_timeout-Settles :
      (since : ℕ → ℤ) (h h' : PingHistory) (seq : ℤ)
      → maybe_record_timeout sqrt_ratio since h seq ≡ ok h'
      → Settles h h'
  unfolding maybe_record_timeout
  maybe_record_timeout-Settles since h h' seq e =
      let (old, g, e1) = >>=-eq-ok (get h seq) _ e in
      elim (Bool-cases (is_waiting old.result_type)) [
        | inl waits ↦
            let r = record old { result_type = dropped } in
            let e2 = rw waits at e1 in
            let ((r', h1), er, e3) = >>=-eq-ok (record_result sqrt_ratio since h seq r) _ e2 in
            record_result-Settles since h h' seq old r r' g (λ q. waits) (er ∙ ground arith)
        | inr answered ↦ let same : h ≡ h' = ground arith in subst (Settles h) same (Settles-refl h)
      ]
