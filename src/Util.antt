-- ===== src/Util.antt =====
-- internal/util/util.go: IP versions and the ids of ICMP echoes.
use vasily.Base.{ℕ, Bool, ◌+◌, ◌==◌, if◌then◌else◌, if-eq, inl, inr, Result, ok, panic, ◌≡◌, refl}

abbrev pub ipv4 : ℕ
ipv4 = 4

abbrev pub ipv6 : ℕ
ipv6 = 6

-- `Choose`
abbrev pub choose {ℓ} : {A : Type ℓ} → ℕ → A → A → Result A
choose v val4 val6 = if v == 4 then ok val4 else if v == 6 then ok val6 else panic

-- `MaybeSetDefault`, with the test for the zero value of the type.
abbrev pub maybe_set_default {ℓ} : {A : Type ℓ} → (A → Bool) → A → A → A
maybe_set_default is_zero field val = if is_zero field then val else field

-- `ICMPProtoNum`
abbrev pub icmp_proto_num : ℕ → Result ℕ
icmp_proto_num v = choose v 1 58

-- `idGen` is its next id, and `GenID` gives it out.
abbrev pub gen_id : ℕ → ℕ × ℕ
gen_id next_id = (next_id, next_id + 1)

-- A choice succeeds for the versions for which any other one does.
pub choose-unit : (v a b : ℕ) {n : ℕ} → choose v a b ≡ ok n → choose v (tt {0}) (tt {0}) ≡ ok tt
choose-unit v a b h = elim (if-eq (v == 4) _ _ h) [
  | inl (q, e) ↦ rw q refl
  | inr (q, e) ↦ elim (if-eq (v == 6) _ _ e) [ inl (r, e) ↦ rw (q, r) refl | inr (r, e) ↦ cc ]
]
