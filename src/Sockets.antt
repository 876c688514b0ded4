-- ===== src/Sockets.antt =====
-- The sockets below the connections, as far as internal/backend uses them: a time to live that is
-- read and set, and packets to send. They act on a world.
use vasily.Base.{Bool, true, false, ◌≡◌, refl, sym, ap, ◌∙◌, Result, ok, err, socket_failed}
use vasily.Base.Int.{ℤ}
use vasily.Backend.{Addr, Bytes}

pub record Socket (W : Type 0) : Type 0 where
  pub ttl : W → Result ℤ
  pub set_ttl : ℤ → W → Bool × W
  pub send : Bytes → Addr → ℤ → W → Bool × W

-- What a kernel does with the time to live: a call that sets it sets it or fails and leaves it, a
-- value that was read can be set, and sending does not change it.
pub record IsKernel {W : Type 0} (sock : Socket W) : Type 0 where
  pub sets : (n : ℤ) (w w' : W) → sock.set_ttl n w ≡ (true, w') → sock.ttl w' ≡ ok n
  pub leaves : (n : ℤ) (w w' : W) → sock.set_ttl n w ≡ (false, w') → sock.ttl w' ≡ sock.ttl w
  pub accepts : (n : ℤ) (w v : W) → sock.ttl w ≡ ok n → (sock.set_ttl n v).0 ≡ true
  pub sending :
      (buf : Bytes) (dest : Addr) (port : ℤ) (w : W)
      → sock.ttl ((sock.send buf dest port w).1) ≡ sock.ttl w

-- What `errors.As` and `Timeout` find out about an error of the socket.
pub record SocketError : Type 0 where
  pub ehostunreach : Bool
  pub op_error : Bool
  pub times_out : Bool

-- What a write returns, and the world after it.
abbrev pub Sent : Type 0 → Type 0
Sent W = Result (Unit {0}) × W

abbrev pub written : {W : Type 0} → Bool × W → Sent W
written (true, w) = (ok tt, w)
written (false, w) = (err socket_failed, w)

module _ {W : Type 0} (sock : Socket W) where
  -- The deferred call that sets the time to live back; its failure is only logged.
  abbrev pub restore : ℤ → Sent W → Sent W
  restore orig (r, w) = (r, (sock.set_ttl orig w).1)

  -- An error, or a packet sent with this time to live.
  pub data SentWith (buf : Bytes) (dest : Addr) (port n : ℤ) : Result (Unit {0}) → Type 0 where
    failed : {r : Result (Unit {0})} → r ≡ err socket_failed → SentWith buf dest port n r
    sent :
        {r : Result (Unit {0})} (v : W)
        → sock.ttl v ≡ ok n
        → (sock.send buf dest port v).0 ≡ true
        → r ≡ ok tt
        → SentWith buf dest port n r

  module _ (k : IsKernel sock) where
    pub restored :
        (orig : ℤ) (w v : W) → sock.ttl w ≡ ok orig → sock.ttl ((sock.set_ttl orig v).1) ≡ ok orig
    restored orig w v h =
        k.sets orig v ((sock.set_ttl orig v).1)
          (ap (λ b. (b, (sock.set_ttl orig v).1)) (k.accepts orig w v h))

    -- A packet goes out with the time to live that is set, and does not change it.
    pub written-SentWith :
        (buf : Bytes) (dest : Addr) (port n : ℤ) (v : W)
        → sock.ttl v ≡ ok n
        → SentWith buf dest port n ((written (sock.send buf dest port v)).0)
          × (sock.ttl ((written (sock.send buf dest port v)).1) ≡ ok n)
    written-SentWith buf dest port n v h = by_result (sock.send buf dest port v) refl
      where
        by_result :
            (x : Bool × W)
            → sock.send buf dest port v ≡ x
            → SentWith buf dest port n ((written x).0) × (sock.ttl ((written x).1) ≡ ok n)
        by_result (true, w) e = (
          sent v h (ap (λ (x : Bool × W). x.0) e) refl,
          ap (λ (x : Bool × W). sock.ttl x.1) (sym e) ∙ k.sending buf dest port v ∙ h,
        )
        by_result (false, w) e = (
          failed refl,
          ap (λ (x : Bool × W). sock.ttl x.1) (sym e) ∙ k.sending buf dest port v ∙ h,
        )
