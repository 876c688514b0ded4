-- ===== src/Icmpbase.antt =====
-- internal/backend/icmpbase: the connections that share one ICMP socket (service_normal.go), as
-- steps of their users and of the goroutines that deliver what the socket receives.
pub mod Owned
pub mod Sound
pub mod Delivery
pub mod Held
pub mod Slots
pub mod Services
pub mod Writing
pub mod Reading
pub mod ReadLoop
pub mod Linux
mod Tests
mod ReadTests
use vasily.Base.{
  ℕ, zero, suc, ◌+◌, ◌-◌, ◌==◌, ltb, Bool, true, false, ◌&&◌, Option, none, some, List, [], ◌∷◌,
  ◌++◌, length, get_elem?, set, if◌then◌else◌, Result, ok, panic, ◌>>=◌,
}
use vasily.Backend.{Addr, Packet, packet_request}
use vasily.Util.{gen_id}

-- service.go
pub record ListenerKey : Type 0 where
  pub id : ℕ
  pub proto : ℕ

pub record ReadResult : Type 0 where
  pub packet : Packet
  pub peer : Addr
  pub id : ℕ

-- A `Conn` with the channel `receiver`, which has no buffer. Of its users there is what `ReadFrom`
-- has returned, the latest first, and how many calls of `Close` wait for the channel to be closed.
pub record Conn : Type 0 where
  pub key : ListenerKey
  pub is_closed : Bool
  pub received : List ReadResult
  pub close_waits : ℕ

-- `activeConns` holds `active` elements. `opening` calls of `New` have put theirs in and have no
-- service yet. A `sendToReceiver` that is in its send holds the mutex. Of the connections ever made
-- the listeners hold the indexes.
pub record Service : Type 0 where
  pub active : ℕ
  pub opening : ℕ
  pub next_id : ℕ
  pub listeners : List (ListenerKey × ℕ)
  pub conns : List Conn
  pub sending : Option (ℕ × ReadResult)

abbrev pub max_active_conns : ℕ
max_active_conns = 100

-- `newICMPService`, with the first id of the generator.
abbrev pub new_service : ℕ → Service
new_service next_id = record {
  active = 0;
  opening = 0;
  next_id = next_id;
  listeners = [];
  conns = [];
  sending = none;
}

unfoldable pub same_key : ListenerKey → ListenerKey → Bool
same_key a b = a.id == b.id && a.proto == b.proto

unfoldable pub listener : ListenerKey → List (ListenerKey × ℕ) → Option ℕ
unfolding same_key
listener key [] = none
listener key ((k, i) ∷ t) = if same_key key k then some i else listener key t

unfoldable pub unlisten : ListenerKey → List (ListenerKey × ℕ) → List (ListenerKey × ℕ)
unfolding same_key
unlisten key [] = []
unlisten key ((k, i) ∷ t) = if same_key key k then unlisten key t else (k, i) ∷ unlisten key t

abbrev pub is_locked : Option (ℕ × ReadResult) → Bool
is_locked none = false
is_locked (some x) = true

-- The first part of `New`; when `activeConns` is full it returns an error.
unfoldable pub acquire : Service → Service
acquire s =
    if ltb s.active max_active_conns
    then record s { active = s.active + 1; opening = s.opening + 1 }
    else s

-- `New` when `serviceFor` returns an error: the element stays in `activeConns`.
unfoldable pub fail_open : Service → ℕ → Service
fail_open s zero = s
fail_open s (suc n) = record s { opening = n }

-- The id that `RegisterReader` chooses, with what the generator goes on with.
abbrev pub choose_id : ℕ → ℕ → ℕ × ℕ
choose_id id next_id = if id == 0 then gen_id next_id else (id, next_id)

-- The map takes the place of an older listener with the same key.
abbrev pub listen : Service → ListenerKey → ℕ → Service
listen s key next_id = record s {
  next_id = next_id;
  listeners = (key, length s.conns) ∷ unlisten key s.listeners;
  conns = s.conns ++ (record { key = key; is_closed = false; received = []; close_waits = 0 } ∷ []);
}

-- The end of `New` with `RegisterReader`.
unfoldable pub register_reader : Service → ℕ → ℕ → ℕ → Service
unfolding unlisten
register_reader s zero id proto = s
register_reader s (suc n) id proto =
    let (id', next_id) = choose_id id s.next_id in
    listen (record s { opening = n }) (record { id = id'; proto = proto }) next_id

-- The send on the channel, which panics if the channel is closed.
unfoldable pub send : Service → ℕ → ReadResult → Option Conn → Result Service
send s i r none = ok s
send s i r (some c) = if c.is_closed then panic else ok (record s { sending = some (i, r) })

unfoldable pub pass_on : Service → ReadResult → Option ℕ → Result Service
unfolding send
pass_on s r none = ok s
pass_on s r (some i) = send s i r (get_elem? s.conns i)

unfoldable pub send_to_receiver : Service → Packet → Addr → ListenerKey → Result Service
unfolding pass_on listener
send_to_receiver s pkt peer key =
    let sent =
      pass_on s (record { packet = pkt; peer = peer; id = key.id }) (listener key s.listeners) in
    if pkt.packet_type == packet_request then ok s else sent

-- `ReadFrom` when there is a send on its channel; its context may end the wait instead.
unfoldable pub receive : Service → ℕ → ReadResult → Option Conn → Service
receive s i r none = s
receive s i r (some c) = record s {
  sending = none;
  conns = set s.conns i (record c { received = r ∷ c.received });
}

unfoldable pub read_from : Service → ℕ → Option (ℕ × ReadResult) → Service
unfolding receive
read_from s i none = s
read_from s i (some (j, r)) = if i == j then receive s i r (get_elem? s.conns i) else s

-- `close` of the channel that is listed, which panics if there is none or it is closed.
unfoldable pub close_listed : Service → ListenerKey → ℕ → Option Conn → Result Service
close_listed s key j none = panic
close_listed s key j (some d) =
    if d.is_closed
    then panic
    else ok (record s {
      listeners = unlisten key s.listeners;
      conns = set s.conns j (record d { is_closed = true });
    })

unfoldable pub unregister_reader : Service → ListenerKey → Option ℕ → Result Service
unfolding close_listed
unregister_reader s key none = panic
unregister_reader s key (some j) = close_listed s key j (get_elem? s.conns j)

abbrev pub wait_closed : Service → ℕ → Option Conn → Service
wait_closed s i none = s
wait_closed s i (some c) = record s {
  conns = set s.conns i (record c { close_waits = c.close_waits + 1 });
}

-- `Close` up to the loop that empties its channel, which ends when the channel is closed.
unfoldable pub close_conn : Service → ℕ → Option Conn → Result Service
unfolding unregister_reader listener
close_conn s i none = ok s
close_conn s i (some c) = do
  s ← unregister_reader s c.key (listener c.key s.listeners)
  ok (wait_closed s i (get_elem? s.conns i))

-- The end of `Close`.
unfoldable pub release : Service → ℕ → Conn → ℕ → Service
release s i c zero = s
release s i c (suc n) =
    if c.is_closed && ltb 0 s.active
    then record s { active = s.active - 1; conns = set s.conns i (record c { close_waits = n }) }
    else s

unfoldable pub return_close : Service → ℕ → Option Conn → Service
unfolding release
return_close s i none = s
return_close s i (some c) = release s i c c.close_waits

-- What can run next.
pub data Event : Type 0 where
  opens fails : Event
  registers : ℕ → ℕ → Event
  arrives : Packet → Addr → ListenerKey → Event
  reads : ℕ → Event
  closes : ℕ → Event
  close_returns : ℕ → Event

-- What needs the mutex waits while it is held.
unfoldable pub step : Service → Event → Result Service
unfolding acquire fail_open register_reader send_to_receiver read_from close_conn return_close
step s opens = ok (acquire s)
step s fails = ok (fail_open s s.opening)
step s (registers id proto) =
    if is_locked s.sending then ok s else ok (register_reader s s.opening id proto)
step s (arrives pkt peer key) =
    if is_locked s.sending then ok s else send_to_receiver s pkt peer key
step s (reads i) = ok (read_from s i s.sending)
step s (closes i) = if is_locked s.sending then ok s else close_conn s i (get_elem? s.conns i)
step s (close_returns i) = ok (return_close s i (get_elem? s.conns i))

unfoldable pub run : Service → List Event → Result Service
unfolding step
run s [] = ok s
run s (e ∷ es) = do s ← step s e; run s es
