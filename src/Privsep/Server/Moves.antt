-- ===== src/Privsep/Server/Moves.antt =====
-- internal/privsep/server.go: the steps of the server against an abstract one.
use vasily.Base.{
  ℕ, ◌+◌, Bool, true, false, Option, none, some, [], ◌∷◌, ◌++◌, get_elem?, ◌≡◌, inl, inr, ap,
  Result, ok, err, panic, or_panic, is_eof, >>=-eq-ok, if-eq, ok-injective,
}
use mathlib.Core.Path.{subst}
use vasily.Base.Int.{ℤ, pos}
use vasily.Backend.{Addr, Bytes, Packet}
use vasily.Messages.Kinds.{
  Message, shutdown, privilege_drop, open_connection, open_connection_reply, close_connection,
  close_connection_reply, send_ping, ping_reply, raw, marshal, read_message,
}
use vasily.Privsep.Privileges.{System, drop_privileges}
use vasily.Privsep.Server.{
  Network, Reader, starting, reading, returned, Server, Event, reads, starts, receives, fails,
  found, conn_for, write, write_options, handle_privilege_drop, handle_open_connection,
  handle_close_connection, handle_send_ping, handle_message, main_loop, start_reader, forward,
  end_reader, act, step,
}
use vasily.Privsep.Server.Conns.{Table, lookup, delete, insert}

-- The part of the server that the client can tell: its connections, the next id, the output.
pub record View (C : Type 0) : Type 0 where
  pub table : Table C
  pub next : ℕ
  pub out : Bytes

pub data Moves {C : Type 0} : View C → View C → Type 0 where
  stays : {v : View C} → Moves v v
  opens :
      {v : View C} (c : C) (buf : Bytes)
      → marshal (open_connection_reply (pos v.next)) ≡ ok buf
      → Moves v
          (record { table = insert (pos v.next) c v.table; next = v.next + 1; out = v.out ++ buf })
  closes : {v : View C} (id : ℤ) → Moves v (record v { table = delete id v.table })
  answers :
      {v : View C} (id : ℤ) (p : Packet) (peer : Addr) (buf : Bytes)
      → marshal (ping_reply id p peer) ≡ ok buf
      → Moves v (record v { out = v.out ++ buf })

or_panic-eq-ok {ℓ} : {A : Type ℓ} (m : Result A) {a : A} → or_panic m ≡ ok a → m ≡ ok a
or_panic-eq-ok (ok x) h = h
or_panic-eq-ok (err e) h = cc
or_panic-eq-ok panic h = cc

module _ {W Conn : Type 0} (sys : System W) (net : Network W Conn) where
  abbrev pub view : Server W Conn → View Conn
  view s = record { table = s.conns; next = s.next_id; out = s.out }

  pub write-eq-ok :
      (s : Server W Conn) (msg : Message) {s' : Server W Conn}
      → write sys net s msg ≡ ok s'
      → (buf : Bytes) × (w : W) × (marshal msg ≡ ok buf)
        × (record s { out = s.out ++ buf; world = w } ≡ s')
  unfolding write
  write-eq-ok s msg h =
      let (buf, m, r) = >>=-eq-ok (or_panic (marshal msg)) _ h in
      let (w, n, r) = >>=-eq-ok (or_panic (net.write buf s.world)) _ r in
      (buf, w, or_panic-eq-ok (marshal msg) m, ok-injective r)

  moved :
      (s : Server W Conn) {t s' : Server W Conn}
      → Moves (view s) (view t)
      → t ≡ s'
      → Moves (view s) (view s')
  moved s m e = subst (λ x. Moves (view s) (view x)) e m

  pub open-eq-ok :
      (s : Server W Conn) (backend : Bytes) (ip_ver : ℕ) {s' : Server W Conn}
      → handle_open_connection sys net s backend ip_ver ≡ ok s'
      → (c : Conn) × (buf : Bytes) × (w : W) × (marshal (open_connection_reply (pos s.next_id))
          ≡ ok buf)
        × (record s {
          next_id = s.next_id + 1;
          conns = insert (pos s.next_id) c s.conns;
          readers = s.readers ++ (starting (pos s.next_id) ∷ []);
          out = s.out ++ buf;
          world = w;
        }
            ≡ s')
  unfolding handle_open_connection
  open-eq-ok s backend ip_ver h =
      let ((c, w), n, r) = >>=-eq-ok (or_panic (net.new backend ip_ver s.world)) _ h in
      let (buf, w', m, e) = write-eq-ok _ (open_connection_reply (pos s.next_id)) r in
      (c, buf, w', m, e)

  open-Moves :
      (s : Server W Conn) (backend : Bytes) (ip_ver : ℕ) (s' : Server W Conn)
      → handle_open_connection sys net s backend ip_ver ≡ ok s'
      → Moves (view s) (view s')
  open-Moves s backend ip_ver s' h =
      let (c, buf, w, m, e) = open-eq-ok s backend ip_ver h in moved s (opens c buf m) e

  pub close-eq-ok :
      (s : Server W Conn) (id : ℤ) {s' : Server W Conn}
      → handle_close_connection sys net s id ≡ ok s'
      → (c : Conn) × (w : W) × (lookup id s.conns ≡ some c)
        × (record s { conns = delete id s.conns; world = w } ≡ s')
  unfolding handle_close_connection conn_for
  close-eq-ok s id h =
      let (c, n, r) = >>=-eq-ok (conn_for sys net s id) _ h in
      let (w, m, r) = >>=-eq-ok (or_panic (net.close c s.world)) _ r in
      (c, w, known (lookup id s.conns) n, ok-injective r)
    where
      known : (o : Option Conn) {c : Conn} → found sys net o ≡ ok c → o ≡ some c
      known (some x) q = ap some (ok-injective q)
      known none q = cc

  close-Moves :
      (s : Server W Conn) (id : ℤ) (s' : Server W Conn)
      → handle_close_connection sys net s id ≡ ok s'
      → Moves (view s) (view s')
  close-Moves s id s' h = let (c, w, n, e) = close-eq-ok s id h in moved s (closes id) e

  ping-Moves :
      (s : Server W Conn) (id : ℤ) (p : Packet) (addr : Addr) (ttl : ℤ) (s' : Server W Conn)
      → handle_send_ping sys net s id p addr ttl ≡ ok s'
      → Moves (view s) (view s')
  unfolding handle_send_ping
  ping-Moves s id p addr ttl s' h =
      let (c, n, r) = >>=-eq-ok (conn_for sys net s id) _ h in
      let (w, n, r) =
        >>=-eq-ok (or_panic (net.write_to c p addr (write_options sys net ttl) s.world)) _ r in
      moved s stays (ok-injective r)

  drop-Moves :
      (s s' : Server W Conn) → handle_privilege_drop sys net s ≡ ok s' → Moves (view s) (view s')
  unfolding handle_privilege_drop
  drop-Moves s s' h =
      let (w, n, r) = >>=-eq-ok (or_panic (drop_privileges sys s.world)) _ h in
      moved s stays (ok-injective r)

  message-Moves :
      (s : Server W Conn) (msg : Message) (s' : Server W Conn)
      → handle_message sys net s msg ≡ ok s'
      → Moves (view s) (view s')
  unfolding handle_message
  message-Moves s shutdown s' h = moved s stays (ok-injective h)
  message-Moves s privilege_drop s' h = drop-Moves s s' h
  message-Moves s (open_connection backend ip_ver) s' h = open-Moves s backend ip_ver s' h
  message-Moves s (open_connection_reply id) s' h = cc
  message-Moves s (close_connection id) s' h = close-Moves s id s' h
  message-Moves s (close_connection_reply id) s' h = cc
  message-Moves s (send_ping id p addr ttl) s' h = ping-Moves s id p addr ttl s' h
  message-Moves s (ping_reply id p peer) s' h = cc
  message-Moves s (raw m) s' h = cc

  main_loop-Moves :
      (s : Server W Conn) (r : Result (Message × Bytes)) (s' : Server W Conn)
      → main_loop sys net s r ≡ ok s'
      → Moves (view s) (view s')
  unfolding main_loop
  main_loop-Moves s (ok (msg, rest)) s' h = message-Moves (record s { input = rest }) msg s' h
  main_loop-Moves s (err e) s' h = elim (if-eq (is_eof e) _ _ h) [
    | inl (b, e) ↦ moved s stays (ok-injective e)
    | inr (b, e) ↦ cc
  ]
  main_loop-Moves s panic s' h = cc

  start-Moves :
      (s : Server W Conn) (i : ℕ) (r : Option (Reader Conn)) (s' : Server W Conn)
      → start_reader sys net s i r ≡ ok s'
      → Moves (view s) (view s')
  unfolding start_reader
  start-Moves s i (some (starting id)) s' h =
      let (c, n, r) = >>=-eq-ok (conn_for sys net s id) _ h in moved s stays (ok-injective r)
  start-Moves s i (some (reading id c)) s' h = moved s stays (ok-injective h)
  start-Moves s i (some returned) s' h = moved s stays (ok-injective h)
  start-Moves s i none s' h = moved s stays (ok-injective h)

  forward-Moves :
      (s : Server W Conn) (r : Option (Reader Conn)) (p : Packet) (peer : Addr) (s' : Server W Conn)
      → forward sys net s r p peer ≡ ok s'
      → Moves (view s) (view s')
  unfolding forward
  forward-Moves s (some (reading id c)) p peer s' h =
      let (buf, w, m, e) = write-eq-ok s (ping_reply id p peer) h in
      moved s (answers id p peer buf m) e
  forward-Moves s (some (starting id)) p peer s' h = moved s stays (ok-injective h)
  forward-Moves s (some returned) p peer s' h = moved s stays (ok-injective h)
  forward-Moves s none p peer s' h = moved s stays (ok-injective h)

  end-Moves :
      (s : Server W Conn) (i : ℕ) (r : Option (Reader Conn)) (closed : Bool) (s' : Server W Conn)
      → end_reader sys net s i r closed ≡ ok s'
      → Moves (view s) (view s')
  unfolding end_reader
  end-Moves s i (some (reading id c)) true s' h = moved s stays (ok-injective h)
  end-Moves s i (some (reading id c)) false s' h = cc
  end-Moves s i (some (starting id)) closed s' h = moved s stays (ok-injective h)
  end-Moves s i (some returned) closed s' h = moved s stays (ok-injective h)
  end-Moves s i none closed s' h = moved s stays (ok-injective h)

  act-Moves :
      (s : Server W Conn) (e : Event) (s' : Server W Conn)
      → act sys net s e ≡ ok s'
      → Moves (view s) (view s')
  unfolding act
  act-Moves s reads s' h = elim (if-eq s.running _ _ h) [
    | inl (b, e) ↦ main_loop-Moves s (read_message s.input) s' e
    | inr (b, e) ↦ moved s stays (ok-injective e)
  ]
  act-Moves s (starts i) s' h = start-Moves s i (get_elem? s.readers i) s' h
  act-Moves s (receives i p peer) s' h = forward-Moves s (get_elem? s.readers i) p peer s' h
  act-Moves s (fails i closed) s' h = end-Moves s i (get_elem? s.readers i) closed s' h

  -- Every step of the server that succeeds leaves the client's view of it as it is, opens a
  -- connection under the next id and answers with that id, removes a connection, or writes one ping
  -- reply.
  pub step-Moves :
      (s : Server W Conn) (e : Event) (s' : Server W Conn)
      → step sys net s e ≡ ok s'
      → Moves (view s) (view s')
  unfolding step
  step-Moves s e s' h = elim (if-eq s.exited _ _ h) [
    | inl (b, q) ↦ moved s stays (ok-injective q)
    | inr (b, q) ↦ act-Moves s e s' q
  ]
