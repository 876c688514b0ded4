-- ===== src/Lookup.antt =====
-- internal/lookup/lookup.go: the choice among the addresses that a name resolves to.
mod Tests
use vasily.Base.{
  ℕ, Bool, true, false, Bool-cases, List, [], ◌∷◌, ◌++◌, All, if◌then◌else◌, ◌≡◌, refl, sym, ◌⊎◌,
  inl, inr, Result, ok, err, panic, no_addresses, ◌>>=◌,
}
use mathlib.Core.Path.{subst}
use vasily.Backend.{Addr}

-- Resolution and `To4` are package net's.
module _ (is_v4 : Addr → Bool) where
  -- The loop, from the address that is chosen so far.
  unfoldable pub choose_ip : Addr → List Addr → Addr
  choose_ip ip [] = ip
  choose_ip ip (a ∷ addrs) = choose_ip (if is_v4 a then a else ip) addrs

  unfoldable pub choose_addr : List Addr → Result Addr
  unfolding choose_ip
  choose_addr [] = err no_addresses
  choose_addr (ip ∷ addrs) = ok (choose_ip ip (ip ∷ addrs))

  -- `String`, given what `net.LookupIP` returns.
  unfoldable pub lookup_string : Result (List Addr) → Result Addr
  unfolding choose_addr
  lookup_string resolved = do addrs ← resolved; choose_addr addrs

  abbrev pub IsV6 : Addr → Type 0
  IsV6 a = is_v4 a ≡ false

  -- The last IPv4 address of a list.
  pub data LastV4 : List Addr → Addr → Type 0 where
    last_v4 :
        (front : List Addr) (a : Addr) (back : List Addr)
        → is_v4 a ≡ true
        → All IsV6 back
        → LastV4 (front ++ (a ∷ back)) a

  -- The last IPv4 address, or a given one if there is none.
  abbrev pub Chosen : Addr → List Addr → Addr → Type 0
  Chosen ip addrs r = (All IsV6 addrs × (r ≡ ip)) ⊎ LastV4 addrs r

  LastV4-cons : (a : Addr) {addrs : List Addr} {r : Addr} → LastV4 addrs r → LastV4 (a ∷ addrs) r
  LastV4-cons a (last_v4 front r back q h) = last_v4 (a ∷ front) r back q h

  cons_v4 :
      (ip a : Addr) (addrs : List Addr) (r : Addr)
      → is_v4 a ≡ true
      → Chosen a addrs r
      → Chosen ip (a ∷ addrs) r
  cons_v4 ip a addrs r q (inl (all, e)) =
      inr (subst (LastV4 (a ∷ addrs)) (sym e) (last_v4 [] a addrs q all))
  cons_v4 ip a addrs r q (inr l) = inr (LastV4-cons a l)

  cons_v6 :
      (ip a : Addr) (addrs : List Addr) (r : Addr)
      → is_v4 a ≡ false
      → Chosen ip addrs r
      → Chosen ip (a ∷ addrs) r
  cons_v6 ip a addrs r q (inl (all, e)) = inl ((q, all), e)
  cons_v6 ip a addrs r q (inr l) = inr (LastV4-cons a l)

  choose_ip-Chosen : (ip : Addr) (addrs : List Addr) → Chosen ip addrs (choose_ip ip addrs)
  unfolding choose_ip
  choose_ip-Chosen ip [] = inl (tt, refl)
  choose_ip-Chosen ip (a ∷ addrs) = elim (Bool-cases (is_v4 a)) [
    | inl q ↦
        subst (λ b. Chosen ip (a ∷ addrs) (choose_ip (if b then a else ip) addrs)) (sym q)
          (cons_v4 ip a addrs (choose_ip a addrs) q (choose_ip-Chosen a addrs))
    | inr q ↦
        subst (λ b. Chosen ip (a ∷ addrs) (choose_ip (if b then a else ip) addrs)) (sym q)
          (cons_v6 ip a addrs (choose_ip ip addrs) q (choose_ip-Chosen ip addrs))
  ]

  -- Of a resolution that gives addresses, `String` returns the last IPv4 address, and the first
  -- address if none is IPv4.
  pub lookup_string-Chosen :
      (ip : Addr) (addrs : List Addr)
      → (r : Addr) × (lookup_string (ok (ip ∷ addrs)) ≡ ok r) × Chosen ip (ip ∷ addrs) r
  unfolding lookup_string
  lookup_string-Chosen ip addrs =
      (choose_ip ip (ip ∷ addrs), refl, choose_ip-Chosen ip (ip ∷ addrs))
