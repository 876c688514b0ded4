-- ===== src/Privsep/Client/Tests.antt =====
-- A client that opens a connection, gets a ping reply for it and closes it.
use vasily.Base.{ℕ, true, false, none, some, ◌⊎◌, [], ◌∷◌, ◌++◌, All, ◌≡◌, refl, ok, get_elem?}
use vasily.Base.Int.{pos}
use vasily.Backend.{Bytes, Packet}
use vasily.Messages.Kinds.{read_message, marshal}
use vasily.Privsep.Privileges.{System}
use vasily.Privsep.Server.{Network, Server, starting}
use vasily.Privsep.Server
use vasily.Privsep.Server.Conns.{lookup, insert, delete, same_id}
use vasily.Privsep.Client.{
  Reply, reading, delivering, Client, new_connection, demuxes, opens, takes, registers, reads,
  closes, close_returns, run,
}
use vasily.Privsep.Client.Tidy.{IsTidy, ids}
use vasily.Privsep.Client.Routing.{run_routed}
use vasily.Privsep.Client.Blocking.{run_stuck}
use vasily.Privsep.Client.Closing.{close_never_returns}
use vasily.Privsep.Client.Quiet.{IsOpen}

-- "udp"
abbrev udp : Bytes
udp = 117 ∷ 100 ∷ 112 ∷ []

abbrev host : Bytes
host = 192 ∷ 0 ∷ 2 ∷ 1 ∷ []

abbrev reply_zero : Bytes
reply_zero = 3 ∷ 1 ∷ 4 ∷ 0 ∷ 0 ∷ 0 ∷ 0 ∷ []

abbrev pong : Packet
pong = record { packet_type = 1; seq = pos 5; payload = 9 ∷ [] }

abbrev answer : Reply
answer = record { id = pos 0; packet = pong; peer = host }

-- A ping reply with `answer`.
abbrev pong_bytes : Bytes
pong_bytes = 7 ∷ 3 ∷ 4 ∷ 0 ∷ 0 ∷ 0 ∷ 0 ∷ 5 ∷ 1 ∷ 0 ∷ 5 ∷ 1 ∷ 9 ∷ 4 ∷ 192 ∷ 0 ∷ 2 ∷ 1 ∷ []

abbrev open_udp : Bytes
open_udp = 2 ∷ 2 ∷ 3 ∷ 117 ∷ 100 ∷ 112 ∷ 1 ∷ 4 ∷ []

abbrev connected : Client
connected = record {
  demux = reading;
  input = [];
  out = open_udp;
  connections = (pos 0, 0) ∷ [];
  objects = record (new_connection (pos 0) udp) { received = answer ∷ [] } ∷ [];
  opening = [];
  registering = [];
}

-- The buffer holds a reply, and the demultiplexer has the next one.
abbrev blocked : Client
blocked = record connected {
  demux = delivering 0 answer;
  objects = record (new_connection (pos 0) udp) { read_from = some answer } ∷ [];
}

abbrev closing : Client
closing = record connected {
  out = open_udp ++ (4 ∷ 1 ∷ 4 ∷ 0 ∷ 0 ∷ 0 ∷ 0 ∷ []);
  objects = record (new_connection (pos 0) udp) { close_waits = 1 } ∷ [];
}

abbrev kernel : System ℕ
kernel = record {
  getuid = λ w. 1000;
  geteuid = λ w. w;
  setuid = λ u w. (true, u);
  seteuid = λ u w. (true, u);
}

abbrev network : Network ℕ ℕ
network = record {
  new = λ backend ip_ver w. ok (ip_ver, w);
  close = λ c w. ok w;
  write_to = λ c p addr opts w. ok w;
  write = λ buf w. ok w;
}

abbrev served : Server ℕ ℕ
served = record {
  conns = (pos 0, 4) ∷ [];
  next_id = 1;
  readers = starting (pos 0) ∷ [];
  input = [];
  out = reply_zero;
  world = 0;
  running = true;
  exited = false;
}

run_routed_example :
    All IsTidy connected.objects
    × ((lookup (pos 0) connected.connections ≡ none)
        ⊎ ((i : ℕ) × (lookup (pos 0) connected.connections ≡ some i)
            × (get_elem? (ids connected.objects) i ≡ some (pos 0))))
unfolding run read_message marshal lookup insert delete same_id
run_routed_example =
    run_routed (reply_zero ++ pong_bytes)
      (opens udp 4 true ∷ demuxes ∷ takes ∷ registers 0 ∷ demuxes ∷ reads 0 ∷ []) connected (pos 0)
      refl

run_stuck_example : (blocked.demux ≡ delivering 0 answer) × (blocked.out ≡ blocked.out)
unfolding run read_message marshal lookup insert delete same_id
run_stuck_example =
    run_stuck 0 answer blocked blocked (closes 0 true ∷ opens udp 4 true ∷ demuxes ∷ reads 1 ∷ [])
      refl (tt, (tt, (tt, (refl, tt)))) refl

close_never_returns_example : All IsOpen closing.objects
unfolding run Server.run read_message marshal lookup insert delete same_id
close_never_returns_example =
    close_never_returns kernel network open_udp 0 (Server.reads ∷ []) served
      (opens udp 4 true ∷ demuxes ∷ takes ∷ registers 0 ∷ closes 0 true ∷ close_returns 0 ∷ [])
      closing refl refl
