-- ===== src/Udp/Linux.antt =====
-- udp_linux.go: errors come from the error queue of the UDP socket itself.
use vasily.Base.{
  ℕ, suc, ◌≤◌, Bool, true, false, Option, none, some, List, [], ◌++◌, length, drop, take, replicate,
  if◌then◌else◌, Result, ok, err, ◌>>=◌, ◌>>◌, timeout, socket_failed, ◌≡◌, refl, ap, ◌∙◌,
}
use vasily.Base.Int.{ℤ, pos, ◌+ℤ◌, ◌-ℤ◌}
use vasily.Backend.{Addr, Bytes, Packet, packet_reply, WriteOption, option_ttl}
use vasily.Sockets.{Socket, SocketError, IsKernel, Sent, SentWith}
use vasily.Util.{choose, icmp_proto_num, choose-unit}
use vasily.Udppkt.{UdpHeader, PseudoHeader, marshal}
use vasily.Udppkt.Headers.{IsWords}
use vasily.Icmppkt.{Parsers, Parsed, slice, with_type, by_proto, lift, decode_udp, parse}
use vasily.Icmppkt.Ends.{quoted, slice_ok}
use vasily.Icmppkt.Linux.{ControlParsers, parse_linux_ee, IsErrorData, parse_linux_ee-IsErrorData}
use vasily.Icmppkt.Reporting.{lift-eq_ok, ext_err_of, IsReported, parse-IsReported}
use vasily.Udp.{UdpConn, seq_base_port, read_from}
use vasily.Udp
use vasily.Udp.Ports.{plus_minus, own_is_icmp, decoded, decode_udp-marshal, write_to-option_ttl}

-- The address of the `SockaddrInet4`, which takes the first four bytes of the IP.
abbrev pub sockaddr : Addr → Bytes
sockaddr ip = take 4 (ip ++ replicate 4 0)

module _ {W : Type 0} (sock : Socket W) (connect : Bytes → ℤ → W → Bool × W) where
  -- A packet is sent after the socket was connected to the address; the error of that is lost.
  abbrev pub connecting : Socket W
  connecting = record sock {
    send = λ buf dest port w. sock.send buf dest port ((connect (sockaddr dest) port w).1);
  }

  unfoldable pub write_to : UdpConn → Packet → Addr → List WriteOption → W → Sent W
  unfolding Udp.write_to
  write_to c pkt dest opts w = Udp.write_to connecting c pkt dest opts w

-- What `ReadFrom` of the socket gives: a datagram with its sender, or an error.
pub data Datagram : Type 0 where
  datagram : Bytes → Addr → ℕ → Datagram
  failed : SocketError → Datagram

pub data Sockaddr : Type 0 where
  inet4 inet6 : ℕ → Sockaddr
  no_sockaddr : Sockaddr

abbrev pub port_of : Sockaddr → ℕ
port_of (inet4 port) = port
port_of (inet6 port) = port
port_of no_sockaddr = 0

-- Control data and destination; the error of a `read` that fails is overwritten.
abbrev pub read_data : Option (Bytes × Sockaddr) → Bytes × Sockaddr
read_data (some d) = d
read_data none = ([], no_sockaddr)

module _ (cs : ControlParsers) (ip_ver : ℕ) (c : UdpConn) where
  unfoldable pub read_queue : Option (Bytes × Sockaddr) → Result (Packet × Addr)
  unfolding ◌-ℤ◌
  read_queue queue = do
    choose ip_ver (tt {0}) (tt {0})
    let (oob, orig_dest) = read_data queue
    (pkt_type, peer) ← parse_linux_ee cs oob
    let seq = pos (port_of orig_dest) -ℤ seq_base_port c
    ok (record { packet_type = pkt_type; seq = seq; payload = [] }, peer)

  unfoldable pub read_datagram : Datagram → Option (Bytes × Sockaddr) → Result (Packet × Addr)
  unfolding read_queue
  read_datagram (datagram buf peer port) queue =
      let seq = pos port -ℤ seq_base_port c in
      ok (record { packet_type = packet_reply; seq = seq; payload = buf }, peer)
  read_datagram (failed e) queue =
      if e.op_error
      then if e.times_out then err timeout else read_queue queue
      else err socket_failed

  -- `ReadFrom`, given what `SetReadDeadline` returns.
  unfoldable pub read_linux :
      Result (Unit {0}) → Datagram → Option (Bytes × Sockaddr) → Result (Packet × Addr)
  unfolding read_datagram
  read_linux deadline read queue = deadline >> read_datagram read queue

by_proto-udp :
    (f : Bytes → Option (Result Parsed)) (ip_ver own len : ℕ) (body payload : Bytes) (h : UdpHeader)
    (psh : PseudoHeader)
    → IsWords h
    → icmp_proto_num ip_ver ≡ ok own
    → len ≤ length body
    → drop len body ≡ marshal h psh ++ payload
    → by_proto f own body (17, len) ≡ some (ok (decoded h payload))
unfolding by_proto
by_proto-udp f ip_ver own len body payload h psh w o l q =
    ap
      (λ b. if b then lift (slice body len) f else lift (slice body len) (λ b. some (decode_udp b)))
      (own_is_icmp ip_ver own o)
    ∙ lift-eq_ok (slice body len) (drop len body) (λ b. some (decode_udp b)) (slice_ok body len l)
    ∙ ap (λ b. some (decode_udp b)) q
    ∙ ap some (decode_udp-marshal h psh payload w)

-- A router's answer to a probe, that it could not be passed on, whose port is the base port and a
-- sequence number. Both versions of the connection read a packet of the same type with that
-- sequence number: the one that gets the ICMP message from the ICMP connection, with the probe's
-- local port as its id, and the one of Linux that reads the error queue, where the kernel leaves
-- the error and the probe's destination.
pub read_linux-read_from :
    (ps : Parsers) (cs : ControlParsers) (ip_ver origin typ n len : ℕ) (buf oob payload : Bytes)
    (peer : Addr) (e : SocketError) (h : UdpHeader) (psh : PseudoHeader) (c : UdpConn) (seq : ℤ)
    → (r : IsReported ps ip_ver origin typ buf 17 len)
    → IsErrorData cs oob (ext_err_of origin typ r.m) peer
    → IsWords h
    → drop len (quoted r.m.body) ≡ marshal h psh ++ payload
    → pos h.dst_port ≡ c.base_port +ℤ seq
    → e.op_error ≡ true
    → e.times_out ≡ false
    → (t : ℕ) × (p : Parsed) × (parse ps (suc n) ip_ver buf ≡ some (ok p))
      × (p.id ≡ h.src_port)
      × (read_from c p.packet ≡ record { packet_type = t; seq = seq; payload = payload })
      × (read_linux cs ip_ver c (ok tt) (failed e) (some (oob, inet4 h.dst_port))
          ≡ ok (record { packet_type = t; seq = seq; payload = [] }, peer))
unfolding read_linux read_datagram read_queue read_from
read_linux-read_from ps cs ip_ver origin typ n len buf oob payload peer e h psh c seq r d w q k o
      t =
    let (kind, known, parsed) = parse-IsReported ps ip_ver origin typ n buf 17 len r in
    let ee = parse_linux_ee-IsErrorData cs oob (ext_err_of origin typ r.m) peer kind d known in
    let version = choose-unit ip_ver 1 58 r.version in
    let back = ap (λ z. z -ℤ c.base_port) k ∙ plus_minus c.base_port seq in
    (
      kind,
      record (decoded h payload) {
        packet = record (decoded h payload).packet { packet_type = kind };
      },
      parsed
          ∙ ap (with_type kind) (
              by_proto-udp (parse ps n ip_ver) ip_ver r.own len (quoted r.m.body) payload h psh w
                r.version r.within q),
      refl,
      ap (λ z. record { packet_type = kind; seq = z; payload = payload }) back,
      simp (o, t, version, ee)
          (ap (λ z. ok (record { packet_type = kind; seq = z; payload = [] }, peer)) back),
    )

module _ {W : Type 0} (sock : Socket W) (connect : Bytes → ℤ → W → Bool × W) where
  -- If connecting leaves the time to live as it is, a probe of the Linux connection goes to the
  -- port of its sequence number with the time to live of the last option, and the socket is left
  -- with the one that it had.
  pub write_linux-option_ttl :
      (c : UdpConn) (pkt : Packet) (dest : Addr) (opts : List WriteOption) (orig : ℤ) (w : W)
      → IsKernel sock
      → ((a : Bytes) (port : ℤ) (w : W) → sock.ttl ((connect a port w).1) ≡ sock.ttl w)
      → ((n : ℤ) (w : W) → (sock.set_ttl n w).0 ≡ true)
      → sock.ttl w ≡ ok orig
      → SentWith
          (connecting sock connect)
          pkt.payload
          dest
          (c.base_port +ℤ pkt.seq)
          (option_ttl orig opts)
          ((write_to sock connect c pkt dest opts w).0)
        × (sock.ttl ((write_to sock connect c pkt dest opts w).1) ≡ ok orig)
  unfolding write_to
  write_linux-option_ttl c pkt dest opts orig w k keeps settable h =
      write_to-option_ttl (connecting sock connect) c pkt dest opts orig w
        (record {
          sets = k.sets;
          leaves = k.leaves;
          accepts = k.accepts;
          sending = λ buf dest port w.
              k.sending buf dest port ((connect (sockaddr dest) port w).1)
              ∙ keeps (sockaddr dest) port w;
        })
        settable h
