-- ===== src/Privsep/Client/Blocking.antt =====
-- internal/privsep/client: a connection whose channel is full.
use vasily.Base.{
  Bool, true, false, ℕ, suc, zero, ◌==◌, false, Bool-cases, Option, none, some, List, [], ◌∷◌, All,
  get_elem?, ◌≡◌, inl, inr, refl, sym, ap, Result, ok, panic, if◌then◌else◌, if-eq, >>=-eq-ok,
  ok-injective,
}
use mathlib.Core.Path.{subst}
use vasily.Backend.{Addr, Bytes, Packet, WriteOption}
use vasily.Privsep.Client.{
  Reply, Connection, Demux, reading, offering, delivering, stopped, Client, Event, demuxes, opens,
  takes, registers, writes, reads, closes, close_returns, shuts_down, is_locked, take_reply,
  take_held, return_one, refill, write_to, close_conn, read_from_conn, return_close, demux_step,
  step, run,
}

-- The event is not a read of connection `i`.
abbrev pub IsOther : ℕ → Event → Type 0
IsOther i (reads j) = (j == i) ≡ false
IsOther i demuxes = Unit {0}
IsOther i (opens backend ip_ver written) = Unit {0}
IsOther i takes = Unit {0}
IsOther i (registers j) = Unit {0}
IsOther i (writes j packet dest opts written) = Unit {0}
IsOther i (closes j written) = Unit {0}
IsOther i (close_returns j) = Unit {0}
IsOther i (shuts_down written) = Unit {0}

-- Blocked on connection `i`, with `out` written.
abbrev IsStuck : ℕ → Reply → Bytes → Client → Type 0
IsStuck i r out c = (c.demux ≡ delivering i r) × (c.out ≡ out)

module _ (i : ℕ) (r : Reply) (out : Bytes) (c : Client) where
  refill-IsStuck :
      (j : ℕ) (o : Connection) (x : Reply) (d : Demux)
      → (j == i) ≡ false
      → d ≡ delivering i r
      → IsStuck i r out c
      → IsStuck i r out (refill c j o x d)
  unfolding refill
  refill-IsStuck j o x reading n e s = cc
  refill-IsStuck j o x (offering id) n e s = cc
  refill-IsStuck j o x stopped n e s = cc
  refill-IsStuck j o x (delivering k y) n e s =
      let at : k ≡ i = cc in
      let other : (j == k) ≡ false = subst (λ m. (j == m) ≡ false) (sym at) n in rw other s

  take_held-IsStuck :
      (j : ℕ) (o : Connection) (b : Option Reply)
      → (j == i) ≡ false
      → IsStuck i r out c
      → IsStuck i r out (take_held c j o b)
  unfolding take_held
  take_held-IsStuck j o none n s = s
  take_held-IsStuck j o (some x) n s = refill-IsStuck j o x c.demux n s.0 s

  return_one-IsStuck :
      (j : ℕ) (o : Connection) (n : ℕ) → IsStuck i r out c → IsStuck i r out (return_one c j o n)
  unfolding return_one
  return_one-IsStuck j o zero s = s
  return_one-IsStuck j o (suc n) s = elim (Bool-cases o.closed) [ inl q ↦ rw q s | inr q ↦ rw q s ]

  read-IsStuck :
      (j : ℕ) (o : Option Connection)
      → (j == i) ≡ false
      → IsStuck i r out c
      → IsStuck i r out (read_from_conn c j o)
  unfolding read_from_conn
  read-IsStuck j none n s = s
  read-IsStuck j (some o) n s = take_held-IsStuck j o o.read_from n s

  return-IsStuck :
      (j : ℕ) (o : Option Connection) → IsStuck i r out c → IsStuck i r out (return_close c j o)
  unfolding return_close
  return-IsStuck j none s = s
  return-IsStuck j (some o) s = return_one-IsStuck j o o.close_waits s

  take_reply-IsStuck :
      (d : Demux) (opening : List Bytes)
      → d ≡ delivering i r
      → IsStuck i r out c
      → IsStuck i r out (take_reply c d opening)
  unfolding take_reply
  take_reply-IsStuck reading opening e s = s
  take_reply-IsStuck (offering id) opening e s = cc
  take_reply-IsStuck (delivering k y) opening e s = s
  take_reply-IsStuck stopped opening e s = s

  demux_step-IsStuck :
      (d : Demux) (c' : Client)
      → d ≡ delivering i r
      → IsStuck i r out c
      → demux_step c d ≡ ok c'
      → IsStuck i r out c'
  unfolding demux_step
  demux_step-IsStuck reading c' e s h = cc
  demux_step-IsStuck (offering id) c' e s h = cc
  demux_step-IsStuck stopped c' e s h = cc
  demux_step-IsStuck (delivering k y) c' e s h = subst (IsStuck i r out) (ok-injective h) s

  locked :
      (x : Result Client) (c' : Client)
      → IsStuck i r out c
      → (if is_locked c.demux then ok c else x) ≡ ok c'
      → IsStuck i r out c'
  locked x c' s h = elim (if-eq (is_locked c.demux) (ok c) x h) [
    | inl (q, e) ↦ subst (IsStuck i r out) (ok-injective e) s
    | inr (q, e) ↦ cc (ap is_locked s.0)
  ]

  -- A call of a connection whose client may be nil.
  attached :
      (a : Bool) (x : Result Client) (c' : Client)
      → IsStuck i r out c
      → (if a then (if is_locked c.demux then ok c else x) else panic) ≡ ok c'
      → IsStuck i r out c'
  attached true x c' s h = locked x c' s h
  attached false x c' s h = cc

  write_to-IsStuck :
      (o : Option Connection) (p : Packet) (dest : Addr) (opts : List WriteOption) (written : Bool)
      (c' : Client)
      → IsStuck i r out c
      → write_to c o p dest opts written ≡ ok c'
      → IsStuck i r out c'
  unfolding write_to
  write_to-IsStuck none p dest opts written c' s h = subst (IsStuck i r out) (ok-injective h) s
  write_to-IsStuck (some o) p dest opts written c' s h = attached o.attached _ c' s h

  close_conn-IsStuck :
      (j : ℕ) (o : Option Connection) (written : Bool) (c' : Client)
      → IsStuck i r out c
      → close_conn c j o written ≡ ok c'
      → IsStuck i r out c'
  unfolding close_conn
  close_conn-IsStuck j none written c' s h = subst (IsStuck i r out) (ok-injective h) s
  close_conn-IsStuck j (some o) written c' s h = attached o.attached _ c' s h

  step-IsStuck :
      (e : Event) (c' : Client)
      → IsOther i e
      → IsStuck i r out c
      → step c e ≡ ok c'
      → IsStuck i r out c'
  unfolding step
  step-IsStuck demuxes c' n s h = demux_step-IsStuck c.demux c' s.0 s h
  step-IsStuck (opens backend ip_ver written) c' n s h = locked _ c' s h
  step-IsStuck takes c' n s h =
      subst (IsStuck i r out) (ok-injective h) (take_reply-IsStuck c.demux c.opening s.0 s)
  step-IsStuck (registers j) c' n s h = locked _ c' s h
  step-IsStuck (writes j packet dest opts written) c' n s h =
      write_to-IsStuck (get_elem? c.objects j) packet dest opts written c' s h
  step-IsStuck (reads j) c' n s h =
      subst (IsStuck i r out) (ok-injective h) (read-IsStuck j (get_elem? c.objects j) n s)
  step-IsStuck (closes j written) c' n s h =
      close_conn-IsStuck j (get_elem? c.objects j) written c' s h
  step-IsStuck (close_returns j) c' n s h =
      subst (IsStuck i r out) (ok-injective h) (return-IsStuck j (get_elem? c.objects j) s)
  step-IsStuck (shuts_down written) c' n s h = locked _ c' s h

run-IsStuck :
    (i : ℕ) (r : Reply) (out : Bytes) (es : List Event) (c c' : Client)
    → All (IsOther i) es
    → IsStuck i r out c
    → run c es ≡ ok c'
    → IsStuck i r out c'
unfolding run
run-IsStuck i r out [] c c' n s h = subst (IsStuck i r out) (ok-injective h) s
run-IsStuck i r out (e ∷ es) c c' n s h =
    let (b, q, k) = >>=-eq-ok (step c e) _ h in
    run-IsStuck i r out es b c' n.1 (step-IsStuck i r out c e b n.0 s q) k

-- While the demultiplexer is blocked on a connection whose `readFrom` is full, it holds `mu`: in
-- every order of events without a `ReadFrom` of that connection, it stays blocked and not a byte is
-- written to the server, whichever connections are opened, written to or closed.
pub run_stuck :
    (i : ℕ) (r : Reply) (c c' : Client) (es : List Event)
    → c.demux ≡ delivering i r
    → All (IsOther i) es
    → run c es ≡ ok c'
    → (c'.demux ≡ delivering i r) × (c'.out ≡ c.out)
run_stuck i r c c' es d n h = run-IsStuck i r c.out es c c' n (d, refl) h
