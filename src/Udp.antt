-- ===== src/Udp.antt =====
-- internal/backend/udp: sequence numbers as port numbers (udp_icmpconn.go; Linux has what
-- udp_linux.go does otherwise).
pub mod Ports
pub mod Linux
mod Tests
use vasily.Base.{ℕ, ◌+◌, Bool, true, false, List, [], ◌∷◌, Result, ok, err, panic}
use vasily.Base.Int.{ℤ, pos, ◌+ℤ◌, ◌-ℤ◌}
use vasily.Backend.{Addr, Bytes, Packet, WriteOption, ttl_option}
use vasily.Sockets.{Socket, Sent, written, restore}

-- The part of `Conn` that is not a socket.
pub record UdpConn : Type 0 where
  pub base_port : ℤ

abbrev pub default_base_port : ℤ
default_base_port = pos 33434

abbrev pub new_conn : UdpConn
new_conn = record { base_port = default_base_port }

abbrev pub seq_base_port : UdpConn → ℤ
seq_base_port c = c.base_port

abbrev pub set_seq_base_port : UdpConn → ℤ → UdpConn
set_seq_base_port c p = record c { base_port = p }

module _ {W : Type 0} (sock : Socket W) where
  -- One option of `WriteTo` and, with its deferred call, what comes after it. That `setTTL` fails
  -- is not looked at.
  unfoldable pub with_option : ℤ → Result ℤ → W → (W → Sent W) → Sent W
  with_option n (ok orig) w next = restore sock orig (next ((sock.set_ttl n w).1))
  with_option n (err e) w next = (err e, w)
  with_option n panic w next = (panic, w)

  unfoldable pub write_options : Bytes → Addr → ℤ → List WriteOption → W → Sent W
  unfolding with_option
  write_options buf dest port [] w = written (sock.send buf dest port w)
  write_options buf dest port (ttl_option n ∷ opts) w =
      with_option n (sock.ttl w) w (write_options buf dest port opts)

  unfoldable pub write_to : UdpConn → Packet → Addr → List WriteOption → W → Sent W
  unfolding write_options ◌+ℤ◌
  write_to c pkt dest opts w = write_options pkt.payload dest (c.base_port +ℤ pkt.seq) opts w

-- `ReadFrom` on a packet of the ICMP connection.
unfoldable pub read_from : UdpConn → Packet → Packet
unfolding ◌-ℤ◌
read_from c pkt = record pkt { seq = pkt.seq -ℤ seq_base_port c }
