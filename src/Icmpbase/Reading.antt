-- ===== src/Icmpbase/Reading.antt =====
-- readfrom_normal.go and readfrom_linux.go: the messages that the ICMP socket receives. Of the socket
-- there is what its calls return.
use vasily.Base.{
  ℕ, suc, ==_iff, ◌≤◌, ◌&&◌, length, drop, Option, none, some, if◌then◌else◌, Result, ok, err,
  ◌>>=◌, ◌>>◌, timeout, socket_failed, ok-injective, ◌≡◌, refl, sym, ap, ◌∙◌,
}
use vasily.Backend.{Addr, Bytes, Packet}
use vasily.Util.{choose, icmp_proto_num, choose-unit}
use vasily.Icmppkt.{Parsers, Parsed, slice, with_type, by_proto, lift, parse}
use vasily.Icmppkt.Ends.{quoted, slice_ok}
use vasily.Icmppkt.Reporting.{lift-eq_ok, ext_err_of, IsReported, parse-IsReported}
use vasily.Icmppkt.Linux.{ControlParsers, parse_linux_ee, IsErrorData, parse_linux_ee-IsErrorData}
use vasily.Sockets.{SocketError}
use vasily.Icmpbase.{ListenerKey}

pub data SocketRead : Type 0 where
  received : Bytes → Addr → SocketRead
  failed : SocketError → SocketRead

-- What `readErr` gets from `SyscallConn`, from `rawconn.Read` and from `Recvmsg`: the buffer and the
-- control data.
pub record QueueRead : Type 0 where
  pub syscall_conn : Result (Unit {0})
  pub raw_read : Result (Unit {0})
  pub recvmsg : Result (Bytes × Bytes)

-- The results of `ReadFrom` without an error.
pub record Message : Type 0 where
  pub packet : Packet
  pub peer : Addr
  pub key : ListenerKey

-- A step after one that may run out of fuel.
abbrev pub and_then {ℓ κ} :
    {A : Type ℓ} {B : Type κ} → Option (Result A) → (A → Option (Result B)) → Option (Result B)
and_then none next = none
and_then (some r) next = lift r next

abbrev pub message_of : Addr → Parsed → Message
message_of peer p = record {
  packet = p.packet;
  peer = peer;
  key = record { id = p.id; proto = p.proto };
}

module _ (ps : Parsers) (fuel ip_ver : ℕ) where
  -- The same end in both versions.
  abbrev pub parsed_message : Bytes → Addr → Option (Result Message)
  parsed_message buf peer = and_then (parse ps fuel ip_ver buf) (λ p. some (ok (message_of peer p)))

  -- readfrom_normal.go
  unfoldable pub read_normal : SocketRead → Option (Result Message)
  read_normal (received buf peer) = parsed_message buf peer
  read_normal (failed e) = some (err (if e.op_error && e.times_out then timeout else socket_failed))

  module _ (cs : ControlParsers) (local_port : ℕ) where
    -- The calls of `readErr`, one after the other; `Choose` in `OOBBytes` panics on another version.
    abbrev pub read_queue : QueueRead → Result (Bytes × Bytes)
    read_queue q = q.syscall_conn >> (choose ip_ver (tt {0}) (tt {0}) >> (q.raw_read >> q.recvmsg))

    -- Of the message that was sent the sequence number and the payload are kept.
    unfoldable pub queued_message : Bytes → Parsed → Result Message
    queued_message oob sent = do
      (pkt_type, peer) ← parse_linux_ee cs oob
      proto ← icmp_proto_num ip_ver
      ok (record {
        packet = record {
          packet_type = pkt_type;
          seq = sent.packet.seq;
          payload = sent.packet.payload;
        };
        peer = peer;
        key = record { id = local_port; proto = proto };
      })

    unfoldable pub read_err : QueueRead → Option (Result Message)
    unfolding queued_message
    read_err q =
        lift (read_queue q) (λ (buf, oob).
          and_then (parse ps fuel ip_ver buf) (λ sent. some (queued_message oob sent)))

    -- readfrom_linux.go
    unfoldable pub read_linux : SocketRead → QueueRead → Option (Result Message)
    unfolding read_err
    read_linux (received buf peer) q = parsed_message buf peer
    read_linux (failed e) q =
        if e.ehostunreach
        then read_err q
        else some (err (if e.op_error && e.times_out then timeout else socket_failed))

by_proto-own :
    (f : Bytes → Option (Result Parsed)) (own len : ℕ) (body : Bytes)
    → len ≤ length body
    → by_proto f own body (own, len) ≡ f (drop len body)
unfolding by_proto
by_proto-own f own len body l =
    rw ((==_iff own own).1 refl)
      (lift-eq_ok (slice body len) (drop len body) f (slice_ok body len l))

-- A raw socket receives a message that says that an echo of this connection could not be passed on;
-- on Linux the read fails, and the error queue holds the echo and the error. If it fails with
-- EHOSTUNREACH the result is the same message, of the same type and for the same listener; if it
-- fails with any other error, that error is returned, a time-out as such, and the message is not
-- read.
pub read_linux-read_normal :
    (ps : Parsers) (cs : ControlParsers) (ip_ver origin typ n proto len : ℕ) (buf oob : Bytes)
    (peer : Addr) (e : SocketError) (p : Parsed)
    → (r : IsReported ps ip_ver origin typ buf proto len) → icmp_proto_num ip_ver ≡ ok proto
    → IsErrorData cs oob (ext_err_of origin typ r.m) peer
    → parse ps n ip_ver (drop len (quoted r.m.body)) ≡ some (ok p)
    → p.proto ≡ proto
    → (x : Message) × (read_normal ps (suc n) ip_ver (received buf peer) ≡ some (ok x))
      × (read_linux ps n ip_ver cs p.id (failed e) (record {
        syscall_conn = ok tt;
        raw_read = ok tt;
        recvmsg = ok (drop len (quoted r.m.body), oob);
      })
          ≡ (if e.ehostunreach
              then some (ok x)
              else some (err (if e.op_error && e.times_out then timeout else socket_failed))))
      × (x.packet.seq ≡ p.packet.seq)
      × (x.key ≡ record { id = p.id; proto = proto })
unfolding read_normal read_linux read_err queued_message
read_linux-read_normal ps cs ip_ver origin typ n proto len buf oob peer e p r o d s own =
    let (t, k, h) = parse-IsReported ps ip_ver origin typ n buf proto len r in
    let same : r.own ≡ proto = ok-injective (sym r.version ∙ o) in
    let ee = parse_linux_ee-IsErrorData cs oob (ext_err_of origin typ r.m) peer t d k in
    let version = choose-unit ip_ver 1 58 o in
    (
      record {
        packet = record p.packet { packet_type = t };
        peer = peer;
        key = record { id = p.id; proto = proto };
      },
      ap (λ z. and_then z (λ p. some (ok (message_of peer p))))
            (h
              ∙ ap (with_type t) (
                  ap (λ z. by_proto (parse ps n ip_ver) z (quoted r.m.body) (proto, len)) same
                  ∙ by_proto-own (parse ps n ip_ver) proto len (quoted r.m.body) r.within
                  ∙ s))
          ∙ ap
              (λ z. some (
                ok (record {
                  packet = record p.packet { packet_type = t };
                  peer = peer;
                  key = record { id = p.id; proto = z };
                })))
              own,
      simp (version, s, ee, o) refl,
      refl,
      refl,
    )
