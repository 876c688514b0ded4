-- ===== src/Privsep/Server/Ending.antt =====
-- internal/privsep/server.go: the end of `run`.
use vasily.Base.{
  ℕ, suc, ◌-◌, ◌≤◌, ◌<◌, Bool, true, false, not, ◌||◌, one_if, count_if, Option, none, some, List,
  [], ◌∷◌, length, length-append, get_elem?, if◌then◌else◌, if-eq, inl, inr, Result, ok, err, panic,
  or_panic, is_eof, >>=-eq-ok, ok-injective, ◌≡◌, refl, sym, ap, ◌∙◌, arith,
}
use mathlib.Core.Path.{subst}
use vasily.Backend.{Addr, Bytes, Packet}
use vasily.Base.Int.{ℤ}
use vasily.Messages.Raw.{read_raw_message}
use vasily.Messages.Framing.{frame}
use vasily.Messages.Streams.{read_raw_message_cases}
use vasily.Messages.Kinds.{
  Message, shutdown, privilege_drop, open_connection, open_connection_reply, close_connection,
  close_connection_reply, send_ping, ping_reply, raw, decode_raw, read_message,
}
use vasily.Privsep.Privileges.{System, drop_privileges}
use vasily.Privsep.Server.{
  Network, Reader, starting, reading, returned, Server, new_server, Event, reads, starts, receives,
  fails, handle_privilege_drop, handle_send_ping, handle_message, main_loop, start_reader, forward,
  end_reader, act, step, run, conn_for, write_options,
}
use vasily.Privsep.Server.Moves.{write-eq-ok, open-eq-ok, close-eq-ok}

abbrev rest_of {ℓ} : {A : Type ℓ} → Result (A × Bytes) → Bytes
rest_of (ok (m, r)) = r
rest_of _ = []

-- A message takes at least its type and its count off the stream.
read_message_shorter :
    (r : Bytes) (msg : Message) (rest : Bytes)
    → read_message r ≡ ok (msg, rest)
    → length rest < length r
unfolding read_message
read_message_shorter r msg rest h =
    let ((m, rest'), e, k) = >>=-eq-ok (read_raw_message r) _ h in
    let (msg', d, k) = >>=-eq-ok (decode_raw m) _ k in
    elim (read_raw_message_cases r) [
      | inl (m2, rest2, e2, s) ↦
          let same : rest2 ≡ rest = ap rest_of (sym e2 ∙ e) ∙ ap rest_of k in
          omega (arith, ap length s, length-append (frame m2) rest2, ap length same)
      | inr e2 ↦ cc
    ]

-- The main loop has ended: `run` has returned, or the process has exited.
abbrev pub has_ended : {W Conn : Type 0} → Server W Conn → Bool
has_ended s = s.exited || not s.running

-- How many more messages it can take, the end of the input counted.
abbrev left : {W Conn : Type 0} → Server W Conn → ℕ
left s = if has_ended s then 0 else suc (length s.input)

abbrev pub is_read : Event → Bool
is_read reads = true
is_read _ = false

module _ {W Conn : Type 0} (sys : System W) (net : Network W Conn) where
  record Kept (s t : Server W Conn) : Type 0 where
    kept_input : t.input ≡ s.input
    kept_running : t.running ≡ s.running
    kept_exited : t.exited ≡ s.exited

  itself : (s : Server W Conn) → Kept s s
  itself s = record { kept_input = refl; kept_running = refl; kept_exited = refl }

  Kept-left : (s t : Server W Conn) → Kept s t → left t ≡ left s
  Kept-left s t k = rw (k.kept_input, k.kept_running, k.kept_exited) refl

  same_but : (s : Server W Conn) {t u : Server W Conn} → Kept s t → t ≡ u → Kept s u
  same_but s k e = subst (Kept s) e k

  drop-Kept : (s t : Server W Conn) → handle_privilege_drop sys net s ≡ ok t → Kept s t
  unfolding handle_privilege_drop
  drop-Kept s t h =
      let (w, n, r) = >>=-eq-ok (or_panic (drop_privileges sys s.world)) _ h in
      subst (Kept s) (ok-injective r)
        (record { kept_input = refl; kept_running = refl; kept_exited = refl })

  ping-Kept :
      (s : Server W Conn) (id : ℤ) (p : Packet) (addr : Addr) (ttl : ℤ) (t : Server W Conn)
      → handle_send_ping sys net s id p addr ttl ≡ ok t
      → Kept s t
  unfolding handle_send_ping
  ping-Kept s id p addr ttl t h =
      let (c, n, r) = >>=-eq-ok (conn_for sys net s id) _ h in
      let (w, n, r) =
        >>=-eq-ok (or_panic (net.write_to c p addr (write_options sys net ttl) s.world)) _ r in
      subst (Kept s) (ok-injective r)
        (record { kept_input = refl; kept_running = refl; kept_exited = refl })

  -- A message that is not the shutdown leaves the main loop as it is.
  message-left :
      (s : Server W Conn) (msg : Message) (t : Server W Conn)
      → handle_message sys net s msg ≡ ok t
      → left t ≤ left s
  unfolding handle_message
  message-left s shutdown t h =
      subst (λ (u : Server W Conn). left u ≤ left s) (ok-injective h) (omega arith)
  message-left s privilege_drop t h = omega (arith, Kept-left s t (drop-Kept s t h))
  message-left s (open_connection backend ip_ver) t h =
      let (c, buf, w, m, e) = open-eq-ok sys net s backend ip_ver h in omega (arith, ap left e)
  message-left s (close_connection id) t h =
      let (c, w, n, e) = close-eq-ok sys net s id h in omega (arith, ap left e)
  message-left s (send_ping id p addr ttl) t h =
      omega (arith, Kept-left s t (ping-Kept s id p addr ttl t h))
  message-left s (open_connection_reply id) t h = cc
  message-left s (close_connection_reply id) t h = cc
  message-left s (ping_reply id p peer) t h = cc
  message-left s (raw m) t h = cc

  main_loop-left :
      (s t : Server W Conn)
      → has_ended s ≡ false
      → main_loop sys net s (read_message s.input) ≡ ok t
      → left t < left s
  unfolding main_loop
  main_loop-left s t e h = taken (read_message s.input) refl h
    where
      ended : record s { running = false } ≡ t → left t < left s
      ended k = ground (arith, ap left k, e)

      taken :
          (r : Result (Message × Bytes))
          → read_message s.input ≡ r
          → main_loop sys net s r ≡ ok t
          → left t < left s
      taken (ok (msg, rest)) q h =
          let l = message-left (record s { input = rest }) msg t h in
          let m = read_message_shorter s.input msg rest q in ground (arith, l, m, e)
      taken (err x) q h = elim (if-eq (is_eof x) _ _ h) [
        | inl (b, k) ↦ ended (ok-injective k)
        | inr (b, k) ↦ absurd (cc)
      ]
      taken panic q h = absurd (cc)

  start-left :
      (s t : Server W Conn) (i : ℕ) (r : Option (Reader Conn))
      → start_reader sys net s i r ≡ ok t
      → left t ≤ left s
  unfolding start_reader
  start-left s t i (some (starting id)) h =
      let (c, n, r) = >>=-eq-ok (conn_for sys net s id) _ h in
      omega (arith, ap left (ok-injective r))
  start-left s t i (some (reading id c)) h = omega (arith, ap left (ok-injective h))
  start-left s t i (some returned) h = omega (arith, ap left (ok-injective h))
  start-left s t i none h = omega (arith, ap left (ok-injective h))

  forward-left :
      (s t : Server W Conn) (r : Option (Reader Conn)) (p : Packet) (peer : Addr)
      → forward sys net s r p peer ≡ ok t
      → left t ≤ left s
  unfolding forward
  forward-left s t (some (reading id c)) p peer h =
      let (buf, w, m, e) = write-eq-ok sys net s (ping_reply id p peer) h in
      omega (arith, ap left e)
  forward-left s t (some (starting id)) p peer h = omega (arith, ap left (ok-injective h))
  forward-left s t (some returned) p peer h = omega (arith, ap left (ok-injective h))
  forward-left s t none p peer h = omega (arith, ap left (ok-injective h))

  end-left :
      (s t : Server W Conn) (i : ℕ) (r : Option (Reader Conn)) (closed : Bool)
      → end_reader sys net s i r closed ≡ ok t
      → left t ≤ left s
  unfolding end_reader
  end-left s t i (some (reading id c)) true h = omega (arith, ap left (ok-injective h))
  end-left s t i (some (reading id c)) false h = absurd (cc)
  end-left s t i (some (starting id)) closed h = omega (arith, ap left (ok-injective h))
  end-left s t i (some returned) closed h = omega (arith, ap left (ok-injective h))
  end-left s t i none closed h = omega (arith, ap left (ok-injective h))

  act-left :
      (s t : Server W Conn) (e : Event)
      → s.exited ≡ false
      → act sys net s e ≡ ok t
      → left t ≤ left s - one_if (is_read e)
  unfolding act
  act-left s t reads x h = elim (if-eq s.running _ _ h) [
    | inl (b, q) ↦ let l = main_loop-left s t (rw (x, b) refl) q in omega (arith, l)
    | inr (b, q) ↦ ground (arith, ap left (ok-injective q), b)
  ]
  act-left s t (starts i) x h = omega (arith, start-left s t i (get_elem? s.readers i) h)
  act-left s t (receives i p peer) x h =
      omega (arith, forward-left s t (get_elem? s.readers i) p peer h)
  act-left s t (fails i closed) x h = omega (arith, end-left s t i (get_elem? s.readers i) closed h)

  step-left :
      (s t : Server W Conn) (e : Event)
      → step sys net s e ≡ ok t
      → left t ≤ left s - one_if (is_read e)
  unfolding step
  step-left s t e h = elim (if-eq s.exited _ _ h) [
    | inl (b, q) ↦ ground (arith, ap left (ok-injective q), b)
    | inr (b, q) ↦ act-left s t e b q
  ]

  run-left :
      (es : List Event) (s t : Server W Conn)
      → run sys net s es ≡ ok t
      → left t ≤ left s - count_if is_read es
  unfolding run
  run-left [] s t h = omega (arith, ap left (ok-injective h))
  run-left (e ∷ es) s t h =
      let (u, q, k) = >>=-eq-ok (step sys net s e) _ h in
      omega (arith, step-left s u e q, run-left es u t k)

  -- Once the client has closed its end of the pipe, the server ends, whatever it was sent: in every
  -- run whose steps succeed, after as many rounds of the main loop as there are bytes of input, and
  -- one more, `run` has returned or the process has exited, in whatever order its readers run in
  -- between.
  pub run-has_ended :
      (input : Bytes) (w : W) (es : List Event) (t : Server W Conn)
      → run sys net (new_server input w) es ≡ ok t
      → length input < count_if is_read es
      → has_ended t ≡ true
  run-has_ended input w es t h l =
      let n = run-left es (new_server input w) t h in ground (arith, n, l)
