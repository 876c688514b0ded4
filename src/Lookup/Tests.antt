-- ===== src/Lookup/Tests.antt =====
-- A name with two IPv4 addresses behind one of IPv6.
use vasily.Base.{ℕ, Bool, [], ◌∷◌, length, ◌==◌, ◌≡◌, refl, ok}
use vasily.Backend.{Addr}
use vasily.Lookup.{lookup_string, Chosen, lookup_string-Chosen}

-- Addresses of four bytes.
abbrev is_short : Addr → Bool
is_short a = length a == 4

abbrev six : Addr
six = 32 ∷ 1 ∷ 0 ∷ 0 ∷ 0 ∷ 0 ∷ 0 ∷ 0 ∷ 0 ∷ 0 ∷ 0 ∷ 0 ∷ 0 ∷ 0 ∷ 0 ∷ 1 ∷ []

abbrev four : ℕ → Addr
four n = 192 ∷ 0 ∷ 2 ∷ n ∷ []

lookup_string-Chosen_example :
    (r : Addr) × (lookup_string is_short (ok (six ∷ four 1 ∷ four 2 ∷ [])) ≡ ok r)
    × Chosen is_short six (six ∷ four 1 ∷ four 2 ∷ []) r
lookup_string-Chosen_example = lookup_string-Chosen is_short six (four 1 ∷ four 2 ∷ [])

last_of_two : lookup_string is_short (ok (six ∷ four 1 ∷ four 2 ∷ [])) ≡ ok (four 2)
unfolding lookup_string
last_of_two = refl
