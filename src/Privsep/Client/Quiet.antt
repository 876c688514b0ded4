-- ===== src/Privsep/Client/Quiet.antt =====
-- internal/privsep/client: the calls of `Close` that wait, as an invariant.
use vasily.Base.{
  ℕ, zero, suc, ◌+◌, false, Bool-cases, Option, none, some, [], ◌∷◌, ◌++◌, All, All-append, All-set,
  All-get_elem?, get_elem?, set, ◌==◌, ◌≡◌, inl, inr, refl,
}
use vasily.Base.Int.{ℤ}
use vasily.Backend.{Bytes}
use vasily.Messages.Kinds.{
  Message, shutdown, privilege_drop, open_connection, open_connection_reply, close_connection,
  close_connection_reply, send_ping, ping_reply, raw,
}
use vasily.Privsep.Server.Conns.{lookup}
use vasily.Privsep.Client.{
  Reply, Connection, Demux, reading, offering, delivering, stopped, Client, new_connection, offer,
  deliver, handle_ping_reply, dispatch, register, handed_out, refill, take_held, read_from_conn,
  return_one, return_close,
}
use vasily.Privsep.Client.Streams.{OnlyReplies, IsNotClose}

-- No call of `Close` has been answered.
pub record IsOpen (o : Connection) : Type 0 where
  pub empty : o.closed ≡ false
  pub waiting : o.close_returned ≡ 0

pub record IsQuiet (c : Client) : Type 0 where
  pub stream : OnlyReplies c.input
  pub unanswered : All IsOpen c.objects

put : (c : Client) (i : ℕ) (o : Connection) → IsQuiet c → IsOpen o → All IsOpen (set c.objects i o)
put c i o h k = All-set IsOpen c.objects i o h.unanswered k

at : (c : Client) (i : ℕ) (o : Connection) → IsQuiet c → get_elem? c.objects i ≡ some o → IsOpen o
at c i o h g = All-get_elem? IsOpen c.objects i h.unanswered g

module _ (c : Client) (h : IsQuiet c) where
  deliver-IsQuiet :
      (i : ℕ) (r : Reply) (o : Option Connection)
      → get_elem? c.objects i ≡ o
      → IsQuiet (deliver c i r o)
  unfolding deliver
  deliver-IsQuiet i r none g = h
  deliver-IsQuiet i r (some o) g = placed o.read_from
    where
      placed : (b : Option Reply) → IsQuiet (offer c i r o b)
      placed none =
          let k = at c i o h g in
          record {
            stream = h.stream;
            unanswered =
                put c i (record o { read_from = some r }) h
                  (record { empty = k.empty; waiting = k.waiting });
          }
      placed (some held) = record { stream = h.stream; unanswered = h.unanswered }

  ping-IsQuiet : (r : Reply) (o : Option ℕ) → IsQuiet (handle_ping_reply c r o)
  unfolding handle_ping_reply
  ping-IsQuiet r none = h
  ping-IsQuiet r (some i) = deliver-IsQuiet i r (get_elem? c.objects i) refl

  pub dispatch-IsQuiet : (msg : Message) → IsNotClose msg → IsQuiet (dispatch c msg)
  unfolding dispatch
  dispatch-IsQuiet (open_connection_reply id) n = record {
    stream = h.stream;
    unanswered = h.unanswered;
  }
  dispatch-IsQuiet (close_connection_reply id) n = absurd n
  dispatch-IsQuiet (ping_reply id p peer) n =
      ping-IsQuiet (record { id = id; packet = p; peer = peer }) (lookup id c.connections)
  dispatch-IsQuiet shutdown n = h
  dispatch-IsQuiet privilege_drop n = h
  dispatch-IsQuiet (open_connection backend ip_ver) n = h
  dispatch-IsQuiet (close_connection id) n = h
  dispatch-IsQuiet (send_ping id packet addr ttl) n = h
  dispatch-IsQuiet (raw m) n = h

  pub register-IsQuiet : (i : ℕ) (p : Option (ℤ × Bytes)) → IsQuiet (register c i p)
  unfolding register
  register-IsQuiet i none = h
  register-IsQuiet i (some (id, backend)) = record {
    stream = h.stream;
    unanswered =
        All-append IsOpen c.objects (new_connection id backend ∷ []) h.unanswered
          (record { empty = refl; waiting = refl }, tt);
  }

  handed-IsOpen :
      (i : ℕ) (o : Connection) (r : Reply) (held : Option Reply)
      → get_elem? c.objects i ≡ some o
      → All IsOpen (handed_out c i o r held)
  handed-IsOpen i o r held g =
      let k = at c i o h g in
      put c i (record o { read_from = held; received = r ∷ o.received }) h
        (record { empty = k.empty; waiting = k.waiting })

  refill-IsQuiet :
      (i : ℕ) (o : Connection) (r : Reply) (d : Demux)
      → get_elem? c.objects i ≡ some o
      → IsQuiet (refill c i o r d)
  unfolding refill
  refill-IsQuiet i o r reading g = record {
    stream = h.stream;
    unanswered = handed-IsOpen i o r none g;
  }
  refill-IsQuiet i o r (offering id) g = record {
    stream = h.stream;
    unanswered = handed-IsOpen i o r none g;
  }
  refill-IsQuiet i o r stopped g = record {
    stream = h.stream;
    unanswered = handed-IsOpen i o r none g;
  }
  refill-IsQuiet i o r (delivering j next) g = elim (Bool-cases (i == j)) [
    | inl q ↦ rw q (record { stream = h.stream; unanswered = handed-IsOpen i o r (some next) g })
    | inr q ↦ rw q (record { stream = h.stream; unanswered = handed-IsOpen i o r none g })
  ]

  pub read-IsQuiet :
      (i : ℕ) (o : Option Connection) → get_elem? c.objects i ≡ o → IsQuiet (read_from_conn c i o)
  unfolding read_from_conn
  read-IsQuiet i none g = h
  read-IsQuiet i (some o) g = taken o.read_from
    where
      taken : (b : Option Reply) → IsQuiet (take_held c i o b)
      taken none = unfold take_held in h
      taken (some r) = unfold take_held in refill-IsQuiet i o r c.demux g

  pub return-IsQuiet :
      (i : ℕ) (o : Option Connection) → get_elem? c.objects i ≡ o → IsQuiet (return_close c i o)
  unfolding return_close
  return-IsQuiet i none g = h
  return-IsQuiet i (some o) g = one o.close_waits
    where
      one : (n : ℕ) → IsQuiet (return_one c i o n)
      one zero = h
      one (suc n) = rw (at c i o h g).empty h

  pub wait-IsQuiet :
      (i : ℕ) (o : Connection) (buf : Bytes)
      → get_elem? c.objects i ≡ some o
      → IsQuiet (record c {
        out = c.out ++ buf;
        objects = set c.objects i (record o { close_waits = o.close_waits + 1 });
      })
  wait-IsQuiet i o buf g =
      let k = at c i o h g in
      record {
        stream = h.stream;
        unanswered =
            put c i (record o { close_waits = o.close_waits + 1 }) h
              (record { empty = k.empty; waiting = k.waiting });
      }
