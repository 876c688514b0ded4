-- ===== src/Icmpbase/Tests.antt =====
-- A connection over IPv4 that gets a reply, and a socket whose world is its time to live.
use vasily.Base.{Bool, true, false, none, some, [], ◌∷◌, ◌++◌, All, ◌≡◌, refl, sym, ap, ok}
use vasily.Base.Int.{ℤ, pos}
use vasily.Backend.{Bytes, Packet, ttl_option}
use vasily.Sockets.{Socket, IsKernel, SentWith}
use vasily.Icmpbase.{
  ListenerKey, ReadResult, Service, max_active_conns, new_service, listener, unlisten, same_key,
  opens, registers, arrives, reads, closes, close_returns, run,
}
use vasily.Icmpbase.Owned.{HasOwn}
use vasily.Icmpbase.Delivery.{run-HasOwn}
use vasily.Icmpbase.Held.{run_held}
use vasily.Icmpbase.Slots.{failures, after_failures, run_exhausted}
use vasily.Icmpbase.Linux.{LinuxService, opened, shut, IsRead, close-IsRead}
use vasily.Icmpbase.Linux
use vasily.Icmpbase.Writing.{write_to, asked, write_to-SentWith}

abbrev host : Bytes
host = 192 ∷ 0 ∷ 2 ∷ 1 ∷ []

abbrev pong : Packet
pong = record { packet_type = 1; seq = pos 5; payload = [] }

abbrev icmp_key : ListenerKey
icmp_key = record { id = 7; proto = 1 }

abbrev answer : ReadResult
answer = record { packet = pong; peer = host; id = 7 }

abbrev served : Service
served = record {
  active = 1;
  opening = 0;
  next_id = 8;
  listeners = (icmp_key, 0) ∷ [];
  conns =
      record { key = icmp_key; is_closed = false; received = answer ∷ []; close_waits = 0 } ∷ [];
  sending = none;
}

abbrev blocked : Service
blocked = record served { sending = some (0, answer) }

run-HasOwn_example : All HasOwn served.conns
unfolding run listener unlisten same_key
run-HasOwn_example =
    run-HasOwn 7 (opens ∷ registers 0 1 ∷ arrives pong host icmp_key ∷ reads 0 ∷ []) served refl

run_held_example : (blocked.sending ≡ some (0, answer)) × (blocked.listeners ≡ blocked.listeners)
unfolding run
run_held_example =
    run_held 0 answer blocked blocked
      (closes 0 ∷ registers 9 1 ∷ arrives pong host icmp_key ∷ close_returns 0 ∷ []) refl
      (tt, (tt, (tt, (tt, tt)))) refl

run_exhausted_example :
    run (new_service 7) (failures 100 ++ (opens ∷ registers 0 1 ∷ []))
    ≡ ok (after_failures 7 max_active_conns)
run_exhausted_example = run_exhausted 7 (opens ∷ registers 0 1 ∷ [])

abbrev listening : LinuxService
listening = record { echo_id = 0; receiver = opened; sending = none; received = [] }

abbrev deaf : LinuxService
deaf = record listening { receiver = shut }

close-IsRead_example : All IsRead (Linux.reads ∷ [])
unfolding Linux.step Linux.run
close-IsRead_example = close-IsRead listening deaf deaf (Linux.reads ∷ []) refl refl refl

abbrev socket : Socket ℤ
socket = record { ttl = λ w. ok w; set_ttl = λ n w. (true, n); send = λ buf dest port w. (true, w) }

socket-IsKernel : IsKernel socket
socket-IsKernel = record {
  sets = λ n w w' h. ap (λ (x : Bool × ℤ). ok x.1) (sym h);
  leaves = λ n w w' h. cc;
  accepts = λ n w v h. refl;
  sending = λ buf dest port w. refl;
}

write_to-SentWith_example :
    (ok ((write_to socket (8 ∷ []) host (ttl_option (pos 3) ∷ []) (pos 64)).1) ≡ ok (pos 64))
    × SentWith socket
        (8 ∷ [])
        host
        (pos 0)
        (asked socket (pos 64) (ttl_option (pos 3) ∷ []))
        ((write_to socket (8 ∷ []) host (ttl_option (pos 3) ∷ []) (pos 64)).0)
write_to-SentWith_example =
    write_to-SentWith socket socket-IsKernel (8 ∷ []) host (ttl_option (pos 3) ∷ []) (pos 64)
      (pos 64) refl
