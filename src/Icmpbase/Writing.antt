-- ===== src/Icmpbase/Writing.antt =====
-- internalconn.go: a packet is sent with a time to live of its own.
use vasily.Base.{
  Bool, true, false, Bool-cases, List, if◌then◌else◌, Result, ok, err, panic, ok-injective,
  socket_failed, rate_limited, ◌≡◌, inl, inr, refl, sym,
}
use mathlib.Core.Path.{subst}
use vasily.Base.Int.{ℤ, pos, eqb_ℤ}
use vasily.Backend.{Addr, Bytes, WriteOption, option_ttl}
use vasily.Sockets.{
  Socket, IsKernel, Sent, written, restore, SentWith, failed, restored, written-SentWith,
}

module _ {W : Type 0} (sock : Socket W) where
  -- `baseWriteTo`, to port 0.
  unfoldable pub base_write_to : Bytes → Addr → W → Sent W
  base_write_to buf dest w = written (sock.send buf dest (pos 0) w)

  -- The rest of `writeToTTL` when the time to live was set, or not.
  unfoldable pub with_ttl : Bytes → Addr → Bool × W → Sent W
  unfolding base_write_to
  with_ttl buf dest (true, w) = base_write_to buf dest w
  with_ttl buf dest (false, w) = (err socket_failed, w)

  unfoldable pub write_to_ttl : Bytes → Addr → ℤ → Result ℤ → W → Sent W
  unfolding with_ttl
  write_to_ttl buf dest ttl (ok orig) w = restore sock orig (with_ttl buf dest (sock.set_ttl ttl w))
  write_to_ttl buf dest ttl (err e) w = (err e, w)
  write_to_ttl buf dest ttl panic w = (panic, w)

  -- `internalConn.WriteTo`
  unfoldable pub write_to : Bytes → Addr → List WriteOption → W → Sent W
  unfolding write_to_ttl base_write_to option_ttl
  write_to buf dest opts w =
      let ttl = option_ttl (pos 0) opts in
      if eqb_ℤ ttl (pos 0)
      then base_write_to buf dest w
      else write_to_ttl buf dest ttl (sock.ttl w) w

  -- `Conn.WriteTo` of icmpbase.go, given what the limiter says.
  unfoldable pub conn_write_to : Bytes → Addr → List WriteOption → Bool × W → Sent W
  unfolding write_to
  conn_write_to buf dest opts (true, w) = write_to buf dest opts w
  conn_write_to buf dest opts (false, w) = (err rate_limited, w)

  -- The time to live that the options ask for, by default the socket's.
  abbrev pub asked : ℤ → List WriteOption → ℤ
  asked orig opts =
      if eqb_ℤ (option_ttl (pos 0) opts) (pos 0) then orig else option_ttl (pos 0) opts

  module _ (k : IsKernel sock) (buf : Bytes) (dest : Addr) where
    with_ttl-SentWith :
        (n : ℤ) (w : W) (x : Bool × W)
        → sock.set_ttl n w ≡ x
        → SentWith sock buf dest (pos 0) n ((with_ttl buf dest x).0)
    unfolding with_ttl base_write_to
    with_ttl-SentWith n w (true, v) e =
        (written-SentWith sock k buf dest (pos 0) n v (k.sets n w v e)).0
    with_ttl-SentWith n w (false, v) e = failed refl

    bracket :
        (orig n : ℤ) (w : W) (t : Result ℤ)
        → sock.ttl w ≡ ok orig
        → t ≡ ok orig
        → (sock.ttl ((write_to_ttl buf dest n t w).1) ≡ ok orig)
          × SentWith sock buf dest (pos 0) n ((write_to_ttl buf dest n t w).0)
    unfolding write_to_ttl
    bracket orig n w (ok o) h e =
        let x = with_ttl buf dest (sock.set_ttl n w) in
        (
          subst (λ o. sock.ttl ((sock.set_ttl o x.1).1) ≡ ok orig) (sym (ok-injective e))
              (restored sock k orig w x.1 h),
          with_ttl-SentWith n w (sock.set_ttl n w) refl,
        )
    bracket orig n w (err x) h e = cc
    bracket orig n w panic h e = cc

    -- On every branch of `WriteTo`, errors included, the socket is left with the time to live that
    -- it had before; and a packet that is sent is sent with the time to live of the last option, or
    -- with the socket's if there is none or it is 0. The socket is one whose time to live can be
    -- read, and that keeps and sets it as documented.
    pub write_to-SentWith :
        (opts : List WriteOption) (orig : ℤ) (w : W)
        → sock.ttl w ≡ ok orig
        → (sock.ttl ((write_to buf dest opts w).1) ≡ ok orig)
          × SentWith sock buf dest (pos 0) (asked orig opts) ((write_to buf dest opts w).0)
    unfolding write_to base_write_to
    write_to-SentWith opts orig w h = elim (Bool-cases (eqb_ℤ (option_ttl (pos 0) opts) (pos 0))) [
      | inl q ↦ rw q (let (a, b) = written-SentWith sock k buf dest (pos 0) orig w h in (b, a))
      | inr q ↦ rw q (bracket orig (option_ttl (pos 0) opts) w (sock.ttl w) h h)
    ]
