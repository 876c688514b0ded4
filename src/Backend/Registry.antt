-- ===== src/Backend/Registry.antt =====
-- internal/backend/backend.go: the backends by name, and the flag that selects one.
use vasily.Base.{
  ℕ, Bool, true, false, Option, none, some, List, [], ◌∷◌, ◌==◌, ==_iff, ◌&&◌, if◌then◌else◌,
  Result, ok, err, bad_backend, ◌≡◌, refl, ap, ◌∙◌,
}
use vasily.Backend.{Bytes}

-- `NewConnFunc`; `C` is `Conn`.
abbrev pub NewConn : Type 0 → Type 0
NewConn C = ℕ → Result C

abbrev pub eqb_name : Bytes → Bytes → Bool
eqb_name [] [] = true
eqb_name (x ∷ xs) (y ∷ ys) = (x == y) && eqb_name xs ys
eqb_name [] (y ∷ ys) = false
eqb_name (x ∷ xs) [] = false

-- The two variables of the package.
pub record Backends (C : Type 0) : Type 0 where
  pub registry : List (Bytes × NewConn C)
  pub privsep_client : Option (Bytes → NewConn C)

abbrev pub no_backends : {C : Type 0} → Backends C
no_backends = record { registry = []; privsep_client = none }

module _ {C : Type 0} where
  unfoldable pub registered : Bytes → List (Bytes × NewConn C) → Option (NewConn C)
  registered name [] = none
  registered name ((n, nc) ∷ rest) = if eqb_name name n then some nc else registered name rest

  abbrev pub remove : Bytes → List (Bytes × NewConn C) → List (Bytes × NewConn C)
  remove name [] = []
  remove name ((n, nc) ∷ rest) =
      let others = remove name rest in if eqb_name name n then others else (n, nc) ∷ others

  unfoldable pub register : Bytes → NewConn C → Backends C → Backends C
  register name nc b = record b { registry = (name, nc) ∷ remove name b.registry }

  unfoldable pub use_privsep : (Bytes → NewConn C) → Backends C → Backends C
  use_privsep client b = record b { privsep_client = some client }

  abbrev pub or_invalid : ℕ → Option (NewConn C) → Result C
  or_invalid ip_ver none = err bad_backend
  or_invalid ip_ver (some nc) = nc ip_ver

  abbrev pub by_client : Bytes → ℕ → Option (Bytes → NewConn C) → Result C → Result C
  by_client name ip_ver none direct = direct
  by_client name ip_ver (some client) direct = client name ip_ver

  -- `New`
  unfoldable pub new_conn : Bytes → ℕ → Backends C → Result C
  unfolding registered
  new_conn name ip_ver b =
      by_client name ip_ver b.privsep_client (or_invalid ip_ver (registered name b.registry))

  abbrev pub set_name : Bytes → Option (NewConn C) → Result Bytes
  set_name name none = err bad_backend
  set_name name (some nc) = ok name

  -- `flagValue.Set`, with the value that the flag has after it.
  unfoldable pub set_flag : Bytes → Backends C → Result Bytes
  unfolding registered
  set_flag name b = set_name name (registered name b.registry)

eqb_name_self : (a : Bytes) → eqb_name a a ≡ true
eqb_name_self [] = refl
eqb_name_self (x ∷ xs) = ap (λ b. b && eqb_name xs xs) ((==_iff x x).1 refl) ∙ eqb_name_self xs

-- A backend that is registered is one that the flag accepts, and connections of that name are made
-- by the function that it was registered with; once the client of the privileged server is in use,
-- it makes them all, those of names that are not registered too.
pub register-new_conn :
    {C : Type 0} (name : Bytes) (nc : NewConn C) (client : Bytes → NewConn C) (other : Bytes)
    (ip_ver : ℕ) (b : Backends C)
    → b.privsep_client ≡ none
    → (set_flag name (register name nc b) ≡ ok name)
      × (new_conn name ip_ver (register name nc b) ≡ nc ip_ver)
      × (new_conn other ip_ver (use_privsep client b) ≡ client other ip_ver)
unfolding register use_privsep new_conn set_flag registered
register-new_conn name nc client other ip_ver b h = (
  ap (λ t. set_name name (if t then some nc else registered name (remove name b.registry)))
      (eqb_name_self name),
  ap
        (λ c. by_client name ip_ver c (
          or_invalid ip_ver
            (if eqb_name name name then some nc else registered name (remove name b.registry))))
        h
      ∙ ap
          (λ t. or_invalid ip_ver (if t then some nc else registered name (remove name b.registry)))
          (eqb_name_self name),
  refl,
)
