-- ===== src/Privsep/Privileges.antt =====
-- `dropPrivileges` of internal/privsep/privsep.go over the system calls it makes.
use vasily.Base.{
  ℕ, Bool, true, false, not, ◌==◌, ==_iff, if◌then◌else◌, if-eq, inl, inr, ◌≡◌, ◌⊎◌, refl, sym, ap,
  ◌∙◌, Result, ok, guard, ok-injective, >>=-eq-ok, still_privileged, ◌>>◌,
}

-- The kernel's side: the ids of the process, and calls that say whether they succeeded.
pub record System (W : Type 0) : Type 0 where
  pub getuid : W → ℕ
  pub geteuid : W → ℕ
  pub setuid : ℕ → W → Bool × W
  pub seteuid : ℕ → W → Bool × W

module _ {W : Type 0} (sys : System W) where
  -- `syscall.Getuid() != syscall.Geteuid()`
  abbrev pub same_ids : W → Bool
  same_ids w = sys.getuid w == sys.geteuid w

  -- From the attempt to regain root on.
  unfoldable pub check_lost : Bool × W → Result W
  check_lost (regained, w) = do
    guard (not regained) still_privileged
    guard (same_ids w) still_privileged
    ok w

  -- After `Setuid`.
  unfoldable pub check_dropped : Bool × W → Result W
  unfolding check_lost
  check_dropped (set_uid, w) = do
    guard set_uid still_privileged
    guard (same_ids w) still_privileged
    check_lost (sys.seteuid 0 w)

  unfoldable pub drop_privileges : W → Result W
  unfolding check_dropped
  drop_privileges w = if same_ids w then ok w else check_dropped (sys.setuid (sys.getuid w) w)

  guarded :
      (b : Bool) (w w' : W) → (guard b still_privileged >> ok w) ≡ ok w' → (b ≡ true) × (w ≡ w')
  guarded true w w' h = (refl, ok-injective h)
  guarded false w w' h = cc

  equal : (w w' : W) → same_ids w ≡ true → w ≡ w' → sys.getuid w' ≡ sys.geteuid w'
  equal w w' h e =
      ap sys.getuid (sym e) ∙ (==_iff (sys.getuid w) (sys.geteuid w)).0 h ∙ ap sys.geteuid e

  check_lost-eq-ok :
      (r : Bool × W) (w' : W)
      → check_lost r ≡ ok w'
      → (sys.getuid w' ≡ sys.geteuid w') × (r ≡ (false, w'))
  unfolding check_lost
  check_lost-eq-ok (true, w) w' h = cc
  check_lost-eq-ok (false, w) w' h =
      let (same, e) = guarded (same_ids w) w w' h in (equal w w' same e, ap (λ x. (false, x)) e)

  check_dropped-eq-ok :
      (r : Bool × W) (w' : W)
      → check_dropped r ≡ ok w'
      → (sys.getuid w' ≡ sys.geteuid w') × (r.0 ≡ true) × (sys.seteuid 0 r.1 ≡ (false, w'))
  unfolding check_dropped
  check_dropped-eq-ok (false, w) w' h = cc
  check_dropped-eq-ok (true, w) w' h =
      let (u, e, r) = >>=-eq-ok (guard (same_ids w) still_privileged) _ h in
      let (same, lost) = check_lost-eq-ok (sys.seteuid 0 w) w' r in (same, refl, lost)

  -- Where `dropPrivileges` reports success, the real and the effective user id are equal. If they
  -- were not before the call, `Setuid` succeeded with the real id and an attempt to become root
  -- again failed.
  pub drop_privileges-eq-ok :
      (w w' : W)
      → drop_privileges w ≡ ok w'
      → (sys.getuid w' ≡ sys.geteuid w')
        × ((w' ≡ w)
            ⊎ ((sys.setuid (sys.getuid w) w).0 ≡ true)
              × (sys.seteuid 0 (sys.setuid (sys.getuid w) w).1 ≡ (false, w')))
  unfolding drop_privileges
  drop_privileges-eq-ok w w' h = elim (if-eq (same_ids w) _ _ h) [
    | inl (same, e) ↦ (equal w w' same (ok-injective e), inl (sym (ok-injective e)))
    | inr (other, e) ↦
        let (same, set_uid, lost) = check_dropped-eq-ok (sys.setuid (sys.getuid w) w) w' e in
        (same, inr (set_uid, lost))
  ]
