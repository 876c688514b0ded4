-- ===== src/Privsep/Tests.antt =====
-- Runs of the privileged server over a small kernel and a network that never fails.
use vasily.Base.{
  ℕ, arith, true, false, none, some, [], ◌∷◌, ◌++◌, ◌==◌, if◌then◌else◌, ◌≡◌, ◌⊎◌, refl, ok,
}
use vasily.Base.Int.{pos}
use vasily.Backend.{Bytes, Packet}
use vasily.Messages.Kinds.{marshal, read_message, open_connection_reply}
use vasily.Privsep.Privileges.{System, drop_privileges}
use vasily.Privsep.Start.{Launch, is_server, launch, initialize, initialize-client_ready}
use vasily.Privsep.Server.{Network, starting, reading, Server, new_server, reads, starts, step, run}
use vasily.Privsep.Server.Conns.{lookup, insert, delete, same_id}
use vasily.Privsep.Server.Moves.{Moves, step-Moves, view}
use vasily.Privsep.Server.Fresh.{run-open_fresh}
use vasily.Privsep.Server.Output.{Replies, run-Replies}
use vasily.Privsep.Server.Ending.{has_ended, run-has_ended}

-- The world is the effective user id of a process of user 1000.
abbrev kernel : System ℕ
kernel = record {
  getuid = λ w. 1000;
  geteuid = λ w. w;
  setuid = λ u w. (true, u);
  seteuid = λ u w. if w == 0 then (true, u) else (false, w);
}

abbrev network : Network ℕ ℕ
network = record {
  new = λ backend ip_ver w. ok (ip_ver, w);
  close = λ c w. ok w;
  write_to = λ c p addr opts w. ok w;
  write = λ buf w. ok w;
}

abbrev setuid_start : ℕ
setuid_start = 0

abbrev dropped : ℕ
dropped = 1000

-- "udp" over IPv4.
abbrev udp : Bytes
udp = 117 ∷ 100 ∷ 112 ∷ []

abbrev open_udp : Bytes
open_udp = 2 ∷ 2 ∷ 3 ∷ 117 ∷ 100 ∷ 112 ∷ 1 ∷ 4 ∷ []

abbrev reply_zero : Bytes
reply_zero = 3 ∷ 1 ∷ 4 ∷ 0 ∷ 0 ∷ 0 ∷ 0 ∷ []

abbrev start : Server ℕ ℕ
start = new_server open_udp 0

abbrev opened : Server ℕ ℕ
opened = record {
  conns = (pos 0, 4) ∷ [];
  next_id = 1;
  readers = starting (pos 0) ∷ [];
  input = [];
  out = reply_zero;
  world = 0;
  running = true;
  exited = false;
}

abbrev closed : Server ℕ ℕ
closed = record opened { conns = [] }

abbrev opened_twice : Server ℕ ℕ
opened_twice = record opened {
  conns = (pos 1, 4) ∷ (pos 0, 4) ∷ [];
  next_id = 2;
  readers = starting (pos 0) ∷ starting (pos 1) ∷ [];
  out = reply_zero ++ (3 ∷ 1 ∷ 4 ∷ 0 ∷ 0 ∷ 0 ∷ 1 ∷ []);
}

abbrev ping : Packet
ping = record { packet_type = 0; seq = pos 5; payload = [] }

-- The first argument is the program's name; nothing changes the ids after they were dropped.
abbrev ready : Launch ℕ
ready = record {
  executable = λ w. ok w;
  stdout_pipe = λ w. ok w;
  stdin_pipe = λ w. ok w;
  stderr_pipe = λ w. ok w;
  start = λ w. ok w;
  serve = λ w. ok w;
}

initialize-client_ready_example :
    (is_server ([] ∷ []) ≡ false)
    × ((v : ℕ) × (launch kernel ready v ≡ ok dropped)
        × (kernel.getuid v ≡ kernel.geteuid v)
        × ((v ≡ setuid_start)
            ⊎ ((kernel.setuid (kernel.getuid setuid_start) setuid_start).0 ≡ true)
              × (kernel.seteuid 0 (kernel.setuid (kernel.getuid setuid_start) setuid_start).1
                  ≡ (false, v))))
unfolding initialize drop_privileges
initialize-client_ready_example =
    initialize-client_ready kernel ready true ([] ∷ []) setuid_start dropped refl

-- A client that opens a connection, and whose reader then begins.
run-opened :
    run kernel network start (reads ∷ starts 0 ∷ [])
    ≡ ok (record opened { readers = reading (pos 0) 4 ∷ [] })
unfolding run read_message marshal lookup insert delete same_id
run-opened = refl

step-Moves_example : Moves (view kernel network start) (view kernel network opened)
unfolding step read_message marshal lookup insert delete same_id
step-Moves_example = step-Moves kernel network start reads opened refl

run-open_fresh_example :
    (lookup (pos 1) opened.conns ≡ none)
    × (lookup (pos 0) opened_twice.conns ≡ lookup (pos 0) opened.conns)
    × ((c : ℕ) × (lookup (pos 1) opened_twice.conns ≡ some c))
    × ((buf : Bytes) × (marshal (open_connection_reply (pos 1)) ≡ ok buf)
        × (opened_twice.out ≡ opened.out ++ buf))
unfolding run read_message marshal lookup insert delete same_id
run-open_fresh_example =
    run-open_fresh kernel network open_udp 0 (reads ∷ []) opened opened_twice udp 4 (pos 0) refl
      refl (λ e. cc)

run-Replies_example : Replies 1 reply_zero
unfolding run read_message marshal lookup insert delete same_id
run-Replies_example = run-Replies kernel network open_udp 0 (reads ∷ []) opened refl

-- The connection is opened, and then the client goes away.
run-has_ended_example : has_ended (record opened { running = false }) ≡ true
unfolding run read_message marshal lookup insert delete same_id
run-has_ended_example =
    run-has_ended kernel network open_udp 0
      (reads ∷ reads ∷ reads ∷ reads ∷ reads ∷ reads ∷ reads ∷ reads ∷ reads ∷ [])
      (record opened { running = false }) refl (omega arith)
