-- ===== src/Base/Results.antt =====
-- What a Go function gives back: a value, an error, or a panic that nothing recovers.
use mathlib.Core.Bool.{Bool, true, false}
use mathlib.Core.Path.{◌≡◌, refl, subst}
use mathlib.Core.Logic.{◌⊎◌, inl, inr}
use vasily.Base.Tests.{if◌then◌else◌}

-- The errors that the modelled packages tell apart.
pub data Error : Type 0 where
  eof unexpected_eof closed timeout write_failed bad_backend : Error
  too_many_args arg_too_long : Error
  bad_arg_count arg_not_found bad_arg_length bad_ip_length : Error
  no_packet_type no_seq no_payload_length no_payload short_payload extra_bytes : Error
  max_ttl unreachable unhandled_type still_privileged no_addresses : Error
  bad_packet unrecognized_proto unrecognized_origin too_many_conns rate_limited : Error
  socket_failed marshal_failed wrong_type bad_seq bad_control : Error

pub data Result {ℓ} (A : Type ℓ) : Type ℓ where
  panic : Result A
  err : Error → Result A
  ok : A → Result A

infixl 5 ◌>>◌ ◌>>=◌
abbrev pub ◌>>=◌ {ℓ κ} : {A : Type ℓ} {B : Type κ} (m : Result A) (next : A → Result B) → Result B
panic >>= next = panic
err e >>= next = err e
ok x >>= next = next x

-- A conditional equation, with the branch that was taken.
pub if-eq {ℓ} :
    {A : Type ℓ} (b : Bool) (x y : A) {z : A}
    → (if b then x else y) ≡ z
    → ((b ≡ true) × (x ≡ z)) ⊎ ((b ≡ false) × (y ≡ z))
if-eq true x y h = inl (refl, h)
if-eq false x y h = inr (refl, h)

pub ok-injective {ℓ} : {A : Type ℓ} {a b : A} → ok a ≡ ok b → a ≡ b
ok-injective e = cc

-- What holds before a call that may be skipped, and after the call, holds in either case.
pub if-keeps {ℓ κ} :
    {A : Type ℓ} (P : A → Type κ) (b : Bool) (a : A) (x : Result A) (a' : A)
    → P a
    → (x ≡ ok a' → P a')
    → (if b then ok a else x) ≡ ok a'
    → P a'
if-keeps P true a x a' h k e = subst P (ok-injective e) h
if-keeps P false a x a' h k e = k e

-- What came before the last step of a chain that succeeds.
pub >>=-eq-ok {ℓ κ} :
    {A : Type ℓ} {B : Type κ} (m : Result A) (next : A → Result B) {z : B}
    → (m >>= next) ≡ ok z
    → (x : A) × (m ≡ ok x) × (next x ≡ ok z)
>>=-eq-ok panic next q = cc
>>=-eq-ok (err e) next q = cc
>>=-eq-ok (ok x) next q = (x, refl, q)

-- Goes on only if the test holds.
abbrev pub guard : Bool → Error → Result (Unit {0})
guard b e = if b then ok tt else err e

-- As `guard`, for a check whose failure is a bug.
abbrev pub ensure : Bool → Result (Unit {0})
ensure true = ok tt
ensure false = panic

-- A step whose value is not used.
abbrev pub ◌>>◌ {ℓ} : {B : Type ℓ} → Result (Unit {0}) → Result B → Result B
m >> next = m >>= λ x. next

-- `log.Panicf` on an error.
abbrev pub or_panic {ℓ} : {A : Type ℓ} → Result A → Result A
or_panic (ok a) = ok a
or_panic (err e) = panic
or_panic panic = panic

abbrev pub is_eof : Error → Bool
is_eof eof = true
is_eof _ = false
