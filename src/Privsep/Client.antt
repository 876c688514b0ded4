-- ===== src/Privsep/Client.antt =====
-- internal/privsep/client: the client of the privileged server, as steps of its demultiplexer and
-- of the calls that its users make.
pub mod Streams
pub mod Quiet
pub mod Closing
pub mod Sends
pub mod Tidy
pub mod Routed
pub mod Routing
pub mod Blocking
mod Tests
use vasily.Base.{
  remove_at, ℕ, zero, suc, Bool, true, false, Option, none, some, List, [], ◌∷◌, ◌++◌, length,
  get_elem?, set, ◌+◌, ◌-◌, ◌==◌, if◌then◌else◌, Result, ok, err, panic, guard, write_failed, ◌>>=◌,
  ◌>>◌,
}
use vasily.Base.Int.{ℤ, pos}
use vasily.Backend.{Addr, Bytes, Packet, WriteOption, option_ttl}
use vasily.Messages.Kinds.{
  Message, shutdown, privilege_drop, open_connection, open_connection_reply, close_connection,
  close_connection_reply, send_ping, ping_reply, raw, marshal, read_message,
}
use vasily.Privsep.Server.Conns.{Table, lookup, insert, delete}

-- `messages.PingReply`.
pub record Reply : Type 0 where
  pub id : ℤ
  pub packet : Packet
  pub peer : Bytes

-- A `Connection`: the channel `read_from` holds one reply, and `closed` one nil. `attached` tells
-- that its client is not nil. Of its users there is what `ReadFrom` has returned, the latest first,
-- how many calls of `Close` wait for `closed`, and how many have returned from there.
pub record Connection : Type 0 where
  pub id : ℤ
  pub backend : Bytes
  pub read_from : Option Reply
  pub closed : Bool
  pub attached : Bool
  pub received : List Reply
  pub close_waits : ℕ
  pub close_returned : ℕ

-- Where `inputDemux` stands: at its next message; in the send on `openConnReply`, which has no
-- buffer; in the send on a full `readFrom`, with `mu` locked; returned.
pub data Demux : Type 0 where
  reading : Demux
  offering : ℤ → Demux
  delivering : ℕ → Reply → Demux
  stopped : Demux

-- The objects are the connections ever made, and the map holds their indexes. `input` is what the
-- server will have written by the time it closes its end of the pipe. `opening` and `registering`
-- are the calls of `NewConn` before and after they got their reply.
pub record Client : Type 0 where
  pub demux : Demux
  pub input : Bytes
  pub out : Bytes
  pub connections : Table ℕ
  pub objects : List Connection
  pub opening : List Bytes
  pub registering : List (ℤ × Bytes)

-- `New`
abbrev pub new_client : Bytes → Client
new_client input = record {
  demux = reading;
  input = input;
  out = [];
  connections = [];
  objects = [];
  opening = [];
  registering = [];
}

-- What can run next. A Boolean tells whether the pipe takes the bytes; one that does not takes none.
pub data Event : Type 0 where
  demuxes : Event
  opens : Bytes → ℕ → Bool → Event
  takes : Event
  registers : ℕ → Event
  writes : ℕ → Packet → Addr → List WriteOption → Bool → Event
  reads : ℕ → Event
  closes : ℕ → Bool → Event
  close_returns : ℕ → Event
  shuts_down : Bool → Event

-- Only a blocked delivery keeps `mu` from one step to the next.
abbrev pub is_locked : Demux → Bool
is_locked (delivering i r) = true
is_locked _ = false

unfoldable pub send_message : Client → Message → Bool → Result Client
send_message c msg written = do
  buf ← marshal msg
  guard written write_failed
  ok (record c { out = c.out ++ buf })

-- `conn.readFrom <- msg`, by what the channel holds.
unfoldable pub offer : Client → ℕ → Reply → Connection → Option Reply → Client
offer c i r o none = record c { objects = set c.objects i (record o { read_from = some r }) }
offer c i r o (some held) = record c { demux = delivering i r }

unfoldable pub deliver : Client → ℕ → Reply → Option Connection → Client
unfolding offer
deliver c i r none = c
deliver c i r (some o) = offer c i r o o.read_from

-- A reply to an unknown connection is dropped.
unfoldable pub handle_ping_reply : Client → Reply → Option ℕ → Client
unfolding deliver
handle_ping_reply c r none = c
handle_ping_reply c r (some i) = deliver c i r (get_elem? c.objects i)

-- `closed` is empty here: a connection leaves the map when its nil is sent.
unfoldable pub notify : Client → ℕ → Option Connection → Client
notify c i none = c
notify c i (some o) = record c {
  objects = set c.objects i (record o { closed = true; attached = false });
}

unfoldable pub handle_close_connection_reply : Client → ℤ → Option ℕ → Client
unfolding notify
handle_close_connection_reply c id none = c
handle_close_connection_reply c id (some i) =
    notify (record c { connections = delete id c.connections }) i (get_elem? c.objects i)

-- The switch of `inputDemux`; other messages are logged.
unfoldable pub dispatch : Client → Message → Client
unfolding handle_ping_reply handle_close_connection_reply
dispatch c (open_connection_reply id) = record c { demux = offering id }
dispatch c (close_connection_reply id) =
    handle_close_connection_reply c id (lookup id c.connections)
dispatch c (ping_reply id packet peer) =
    handle_ping_reply c (record { id = id; packet = packet; peer = peer }) (lookup id c.connections)
dispatch c shutdown = c
dispatch c privilege_drop = c
dispatch c (open_connection backend ip_ver) = c
dispatch c (close_connection id) = c
dispatch c (send_ping id packet addr ttl) = c
dispatch c (raw m) = c

-- A round of `inputDemux`, which ends at any error.
unfoldable pub input_demux : Client → Result (Message × Bytes) → Result Client
unfolding dispatch
input_demux c (ok (msg, rest)) = ok (dispatch (record c { input = rest }) msg)
input_demux c (err e) = ok (record c { demux = stopped })
input_demux c panic = panic

-- A call whose message could not be sent returns the error to its caller.
abbrev pub or_unchanged : Client → Result Client → Result Client
or_unchanged c (ok c') = ok c'
or_unchanged c (err e) = ok c
or_unchanged c panic = panic

-- `NewConn` up to the receive on `openConnReply`.
unfoldable pub open_conn : Client → Bytes → ℕ → Bool → Result Client
unfolding send_message
open_conn c backend ip_ver written = or_unchanged c (do
  c ← send_message c (open_connection backend ip_ver) written
  ok (record c { opening = c.opening ++ (backend ∷ []) }))

-- The rendezvous on `openConnReply`.
unfoldable pub take_reply : Client → Demux → List Bytes → Client
take_reply c (offering id) (backend ∷ opening) = record c {
  demux = reading;
  opening = opening;
  registering = c.registering ++ ((id, backend) ∷ []);
}
take_reply c (offering id) [] = c
take_reply c reading opening = c
take_reply c (delivering i r) opening = c
take_reply c stopped opening = c

abbrev pub new_connection : ℤ → Bytes → Connection
new_connection id backend = record {
  id = id;
  backend = backend;
  read_from = none;
  closed = false;
  attached = true;
  received = [];
  close_waits = 0;
  close_returned = 0;
}

-- The end of `NewConn`.
unfoldable pub register : Client → ℕ → Option (ℤ × Bytes) → Client
register c i none = c
register c i (some (id, backend)) = record c {
  registering = remove_at c.registering i;
  connections = insert id (length c.objects) c.connections;
  objects = c.objects ++ (new_connection id backend ∷ []);
}

-- `WriteTo` dereferences the client, which is nil after a close, and then waits for its `mu`.
unfoldable pub write_to :
    Client → Option Connection → Packet → Addr → List WriteOption → Bool → Result Client
unfolding send_message option_ttl
write_to c none packet dest opts written = ok c
write_to c (some o) packet dest opts written =
    let sent =
      or_unchanged c
        (send_message c (send_ping o.id packet dest (option_ttl (pos 0) opts)) written) in
    if o.attached then (if is_locked c.demux then ok c else sent) else panic

-- `ReadFrom` takes the reply. A sender that waits for the place fills it again at once.
abbrev pub handed_out : Client → ℕ → Connection → Reply → Option Reply → List Connection
handed_out c i o r held = set c.objects i (record o { read_from = held; received = r ∷ o.received })

unfoldable pub refill : Client → ℕ → Connection → Reply → Demux → Client
refill c i o r (delivering j next) =
    if i == j
    then record c { demux = reading; objects = handed_out c i o r (some next) }
    else record c { objects = handed_out c i o r none }
refill c i o r reading = record c { objects = handed_out c i o r none }
refill c i o r (offering id) = record c { objects = handed_out c i o r none }
refill c i o r stopped = record c { objects = handed_out c i o r none }

-- `ReadFrom` waits while there is nothing; its context may end the wait.
unfoldable pub take_held : Client → ℕ → Connection → Option Reply → Client
unfolding refill
take_held c i o none = c
take_held c i o (some r) = refill c i o r c.demux

unfoldable pub read_from_conn : Client → ℕ → Option Connection → Client
unfolding take_held
read_from_conn c i none = c
read_from_conn c i (some o) = take_held c i o o.read_from

-- `Close` up to the receive on `closed`.
unfoldable pub close_conn : Client → ℕ → Option Connection → Bool → Result Client
unfolding send_message
close_conn c i none written = ok c
close_conn c i (some o) written =
    let sent = or_unchanged c (do
      c ← send_message c (close_connection o.id) written
      ok (record c { objects = set c.objects i (record o { close_waits = o.close_waits + 1 }) })) in
    if o.attached then (if is_locked c.demux then ok c else sent) else panic

-- The end of `Close`, by how many calls wait.
unfoldable pub return_one : Client → ℕ → Connection → ℕ → Client
return_one c i o zero = c
return_one c i o (suc waits) =
    if o.closed
    then record c {
      objects =
          set c.objects i (record o {
            closed = false;
            close_waits = waits;
            close_returned = o.close_returned + 1;
          });
    }
    else c

unfoldable pub return_close : Client → ℕ → Option Connection → Client
unfolding return_one
return_close c i none = c
return_close c i (some o) = return_one c i o o.close_waits

-- The demultiplexer goes on only from its read.
unfoldable pub demux_step : Client → Demux → Result Client
unfolding input_demux
demux_step c reading = input_demux c (read_message c.input)
demux_step c (offering id) = ok c
demux_step c (delivering i r) = ok c
demux_step c stopped = ok c

-- Calls that need `mu` wait while it is locked; those of a connection look at its client first.
unfoldable pub step : Client → Event → Result Client
unfolding demux_step open_conn take_reply register write_to read_from_conn close_conn return_close
    send_message
step c demuxes = demux_step c c.demux
step c (opens backend ip_ver written) =
    if is_locked c.demux then ok c else open_conn c backend ip_ver written
step c takes = ok (take_reply c c.demux c.opening)
step c (registers i) =
    if is_locked c.demux then ok c else ok (register c i (get_elem? c.registering i))
step c (writes i packet dest opts written) =
    write_to c (get_elem? c.objects i) packet dest opts written
step c (reads i) = ok (read_from_conn c i (get_elem? c.objects i))
step c (closes i written) = close_conn c i (get_elem? c.objects i) written
step c (close_returns i) = ok (return_close c i (get_elem? c.objects i))
step c (shuts_down written) =
    if is_locked c.demux then ok c else or_unchanged c (send_message c shutdown written)

unfoldable pub run : Client → List Event → Result Client
unfolding step
run c [] = ok c
run c (e ∷ es) = do c ← step c e; run c es
