-- ===== src/History/Tests.antt =====
-- Concrete histories, and the theorems at concrete inputs.
use vasily.Base.{ℕ, ◌+◌, ◌≡◌, refl, List, [], ◌∷◌, take, arith, ok, panic, ◌>>=◌, none}
use vasily.Base.Int.{ℤ, pos}
use vasily.History.{
  PingHistory, new_history, add, rev_results, record_result, PingResult, waiting, success, dropped,
  capacity,
}
use vasily.History.Window.{IsAt, put, fresh_result, rev_results-add}
use vasily.History.Calls.{timed, rev_results-record}

sent_at : ℕ → PingResult
sent_at t = record { result_type = waiting; time = t; latency = pos 0; peer = none }

wrapped_round :
    (add (new_history 2) (pos 0) 10 >>= λ h.
    add h (pos 1) 11 >>= λ h. add h (pos 2) 12 >>= λ h. ok (rev_results h))
    ≡ ok ((2, sent_at 12) ∷ (1, sent_at 11) ∷ [])
unfolding new_history add rev_results sent_at
wrapped_round = refl

out_of_order : add (new_history 2) (pos 1) 10 ≡ panic
unfolding new_history add
out_of_order = refl

-- Room for two results, after three pings.
abbrev full : PingHistory
full = record {
  history = fresh_result 12 ∷ fresh_result 11 ∷ [];
  stats = record { n = 0; failures = 0; avg_latency = pos 0; std_dev = pos 0 };
  m2 = pos 0;
  last_seq = pos 2;
}

full-IsAt : IsAt 3 full
full-IsAt = record { room = omega arith; last = refl }

-- A stand-in for the floating-point root.
abbrev no_root : ℤ → ℕ → ℤ
no_root m n = pos 0

abbrev later : ℕ → ℤ
later t = pos (t + 5)

abbrev answer : PingResult
answer = record { result_type = success; time = 11; latency = pos 0; peer = none }

abbrev two_results : List PingResult
two_results =
    record { result_type = success; time = 0; latency = pos 7; peer = none }
    ∷ record { result_type = dropped; time = 1; latency = pos 9; peer = none }
    ∷ []

rev_results-add_example :
    (h' : PingHistory) × (add full (pos 3) 13 ≡ ok h')
    × IsAt 4 h'
    × (rev_results h' ≡ take 2 ((3, fresh_result 13) ∷ rev_results full))
rev_results-add_example = rev_results-add 3 full 13 full-IsAt

rev_results-record_example :
    (h' : PingHistory) × (record_result no_root later full (pos 1) answer
      ≡ ok (timed later answer, h'))
    × IsAt 3 h'
    × (capacity h' ≡ 2)
    × (rev_results h' ≡ put 1 (timed later answer) (rev_results full))
    × (h'.stats.n ≡ 0 + 1)
    × (h'.stats.failures ≡ 0 + 0)
rev_results-record_example =
    rev_results-record no_root later 3 1 full answer full-IsAt (omega arith) (omega arith)
