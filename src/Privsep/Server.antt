-- ===== src/Privsep/Server.antt =====
-- internal/privsep/server.go: the privileged server, as steps of its main loop and its readers.
pub mod Conns
pub mod Moves
pub mod Fresh
pub mod Output
pub mod Races
pub mod Ending
use vasily.Base.{
  ℕ, zero, suc, ◌+◌, Bool, true, false, Option, none, some, List, [], ◌∷◌, ◌++◌, get_elem?, set,
  if◌then◌else◌, Error, Result, ok, err, panic, or_panic, is_eof, ◌>>=◌,
}
use vasily.Base.Int.{ℤ, pos, eqb_ℤ}
use vasily.Backend.{Addr, Bytes, Packet, WriteOption, ttl_option}
use vasily.Messages.Kinds.{
  Message, shutdown, privilege_drop, open_connection, open_connection_reply, close_connection,
  close_connection_reply, send_ping, ping_reply, raw, marshal, read_message,
}
use vasily.Privsep.Privileges.{System, drop_privileges}
use vasily.Privsep.Server.Conns.{Table, lookup, insert, delete}

-- What `backend.Conn` and the pipe to the client do to the world. A call that fails gives an error.
pub record Network (W Conn : Type 0) : Type 0 where
  pub new : Bytes → ℕ → W → Result (Conn × W)
  pub close : Conn → W → Result W
  pub write_to : Conn → Packet → Addr → List WriteOption → W → Result W
  pub write : Bytes → W → Result W

-- A goroutine of `readLoop`: started but not yet at its connection, reading, or returned.
pub data Reader (Conn : Type 0) : Type 0 where
  starting : ℤ → Reader Conn
  reading : ℤ → Conn → Reader Conn
  returned : Reader Conn

-- `input` is what the client will have sent by the time it closes its end of the pipe, `out` is what
-- the client got. `running` is false once `run` has returned, `exited` is true after `osExit`.
pub record Server (W Conn : Type 0) : Type 0 where
  pub conns : Table Conn
  pub next_id : ℕ
  pub readers : List (Reader Conn)
  pub input : Bytes
  pub out : Bytes
  pub world : W
  pub running : Bool
  pub exited : Bool

abbrev pub new_server : {W Conn : Type 0} → Bytes → W → Server W Conn
new_server input world = record {
  conns = [];
  next_id = 0;
  readers = [];
  input = input;
  out = [];
  world = world;
  running = true;
  exited = false;
}

-- What can run next: the main loop with its next message, a reader that begins, a packet that a
-- reader gets, a read that fails (with "closed network connection", or otherwise).
pub data Event : Type 0 where
  reads : Event
  starts : ℕ → Event
  receives : ℕ → Packet → Addr → Event
  fails : ℕ → Bool → Event

-- A panic ends the process, as does `log.Fatalf`.
module _ {W Conn : Type 0} (sys : System W) (net : Network W Conn) where
  abbrev pub found {ℓ} : {A : Type ℓ} → Option A → Result A
  found (some a) = ok a
  found none = panic

  unfoldable pub conn_for : Server W Conn → ℤ → Result Conn
  conn_for s id = found (lookup id s.conns)

  unfoldable pub write : Server W Conn → Message → Result (Server W Conn)
  write s msg = do
    buf ← or_panic (marshal msg)
    world ← or_panic (net.write buf s.world)
    ok (record s { out = s.out ++ buf; world = world })

  unfoldable pub handle_privilege_drop : Server W Conn → Result (Server W Conn)
  handle_privilege_drop s = do
    world ← or_panic (drop_privileges sys s.world)
    ok (record s { world = world })

  unfoldable pub handle_open_connection : Server W Conn → Bytes → ℕ → Result (Server W Conn)
  unfolding write
  handle_open_connection s backend ip_ver = do
    (conn, world) ← or_panic (net.new backend ip_ver s.world)
    let id = pos s.next_id
    let opened = record s {
      next_id = s.next_id + 1;
      conns = insert id conn s.conns;
      readers = s.readers ++ (starting id ∷ []);
      world = world;
    }
    write opened (open_connection_reply id)

  unfoldable pub handle_close_connection : Server W Conn → ℤ → Result (Server W Conn)
  unfolding conn_for
  handle_close_connection s id = do
    conn ← conn_for s id
    world ← or_panic (net.close conn s.world)
    ok (record s { conns = delete id s.conns; world = world })

  abbrev pub write_options : ℤ → List WriteOption
  write_options ttl = if eqb_ℤ ttl (pos 0) then [] else ttl_option ttl ∷ []

  unfoldable pub handle_send_ping : Server W Conn → ℤ → Packet → Addr → ℤ → Result (Server W Conn)
  unfolding conn_for
  handle_send_ping s id packet addr ttl = do
    conn ← conn_for s id
    world ← or_panic (net.write_to conn packet addr (write_options ttl) s.world)
    ok (record s { world = world })

  unfoldable pub handle_message : Server W Conn → Message → Result (Server W Conn)
  unfolding handle_privilege_drop handle_open_connection handle_close_connection handle_send_ping
  handle_message s shutdown = ok (record s { exited = true })
  handle_message s privilege_drop = handle_privilege_drop s
  handle_message s (open_connection backend ip_ver) = handle_open_connection s backend ip_ver
  handle_message s (open_connection_reply id) = panic
  handle_message s (close_connection id) = handle_close_connection s id
  handle_message s (close_connection_reply id) = panic
  handle_message s (send_ping id packet addr ttl) = handle_send_ping s id packet addr ttl
  handle_message s (ping_reply id packet peer) = panic
  handle_message s (raw m) = panic

  -- One round of `run`.
  unfoldable pub main_loop : Server W Conn → Result (Message × Bytes) → Result (Server W Conn)
  unfolding handle_message
  main_loop s (ok (msg, rest)) = handle_message (record s { input = rest }) msg
  main_loop s (err e) = if is_eof e then ok (record s { running = false }) else panic
  main_loop s panic = panic

  -- The first line of `readLoop`.
  unfoldable pub start_reader : Server W Conn → ℕ → Option (Reader Conn) → Result (Server W Conn)
  unfolding conn_for
  start_reader s i (some (starting id)) = do
    conn ← conn_for s id
    ok (record s { readers = set s.readers i (reading id conn) })
  start_reader s i _ = ok s

  -- A round of `readLoop` with a packet.
  unfoldable pub forward :
      Server W Conn → Option (Reader Conn) → Packet → Addr → Result (Server W Conn)
  unfolding write
  forward s (some (reading id conn)) packet peer = write s (ping_reply id packet peer)
  forward s _ packet peer = ok s

  -- A round of `readLoop` with an error.
  unfoldable pub end_reader :
      Server W Conn → ℕ → Option (Reader Conn) → Bool → Result (Server W Conn)
  end_reader s i (some (reading id conn)) closed =
      if closed then ok (record s { readers = set s.readers i returned }) else panic
  end_reader s i _ closed = ok s

  unfoldable pub act : Server W Conn → Event → Result (Server W Conn)
  unfolding main_loop start_reader forward end_reader
  act s reads = if s.running then main_loop s (read_message s.input) else ok s
  act s (starts i) = start_reader s i (get_elem? s.readers i)
  act s (receives i packet peer) = forward s (get_elem? s.readers i) packet peer
  act s (fails i closed) = end_reader s i (get_elem? s.readers i) closed

  -- After `osExit` nothing runs any more.
  unfoldable pub step : Server W Conn → Event → Result (Server W Conn)
  unfolding act
  step s e = if s.exited then ok s else act s e

  unfoldable pub run : Server W Conn → List Event → Result (Server W Conn)
  unfolding step
  run s [] = ok s
  run s (e ∷ es) = do s ← step s e; run s es
