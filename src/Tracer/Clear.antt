-- ===== src/Tracer/Clear.antt =====
-- internal/tracer/tracer.go: the path through a network whose hosts all answer.
use vasily.Base.{
  ℕ, zero, suc, ◌+◌, ◌-◌, ◌≤◌, ◌<◌, Bool, true, false, ◌||◌, ◌⊎◌, List, [], ◌∷◌, ◌==◌, ==_refl,
  if◌then◌else◌, ◌≡◌, refl, arith,
}
use vasily.Base.Int.{pos, pos_part, ◌-ℤ◌, eqb_ℤ}
use vasily.Backend.{Addr, Bytes, packet_reply, packet_time_exceeded}
use vasily.Tracer.{Probe, got, Step, eqb_bytes}

-- Routers that answer with time exceeded, and the destination at distance `d`, which replies.
abbrev pub clear_path : (ℕ → Addr) → ℕ → ℕ → ℕ → Probe
clear_path router d i ttl = record {
  written = true;
  reads =
      got
        (record {
          packet_type = if ttl == d then packet_reply else packet_time_exceeded;
          seq = pos (ttl - 1);
          payload = [];
        })
        (router ttl)
      ∷ [];
}

-- The steps on the way, the furthest first.
abbrev pub path : (ℕ → Addr) → ℕ → List Step
path router zero = []
path router (suc n) = record { pos_in_path = suc n; host = router (suc n) } ∷ path router n

pub eqb_bytes_refl : (xs : Bytes) → eqb_bytes xs xs ≡ true
eqb_bytes_refl [] = refl
eqb_bytes_refl (x ∷ xs) = rw (==_refl x, eqb_bytes_refl xs)

pub eq_false : (i j : ℕ) → j < i → (i == j) ≡ false
eq_false i j h = ground arith

pub le_cases : (i m : ℕ) → i ≤ suc m → (i ≡ suc m) ⊎ (i ≤ m)
le_cases i m h = ground arith

pub self : (n : ℕ) → eqb_ℤ (pos n) (pos n) ≡ true
self n = ground arith

pub next_le : (i m : ℕ) → (i == m) ≡ false → i ≤ m → i + 1 ≤ m
next_le i m e h = ground arith

pub between : (i m n : ℕ) → (i == n) ≡ true → i ≤ m → m ≤ n → m ≡ n
between i m n e h l = ground arith

pub limit_of : (m : ℕ) → 1 ≤ m → pos_part (pos m -ℤ pos 1) ≡ m - 1
unfolding ◌-ℤ◌
limit_of m h = ground arith

pub or_true : (a : Bool) {b : Bool} → b ≡ true → (a || b) ≡ true
or_true true h = refl
or_true false h = h
