-- ===== src/Privsep/Server/Output.antt =====
-- What the privileged server writes to its client.
use vasily.Base.{ℕ, ◌+◌, List, [], ◌∷◌, ◌++◌, ◌≡◌, ok, >>=-eq-ok, ok-injective}
use mathlib.Core.Path.{subst}
use vasily.Base.Int.{ℤ, pos}
use vasily.Backend.{Addr, Bytes, Packet}
use vasily.Messages.Kinds.{open_connection_reply, ping_reply, marshal}
use vasily.Privsep.Privileges.{System}
use vasily.Privsep.Server.{Network, Server, new_server, Event, step, run}
use vasily.Privsep.Server.Moves.{View, Moves, stays, opens, closes, answers, step-Moves}

-- A stream of whole replies, the replies to opening numbered from 0 without gaps.
pub data Replies : ℕ → Bytes → Type 0 where
  silent : Replies 0 []
  opened :
      {n : ℕ} {out : Bytes} (buf : Bytes)
      → Replies n out
      → marshal (open_connection_reply (pos n)) ≡ ok buf
      → Replies (n + 1) (out ++ buf)
  answered :
      {n : ℕ} {out : Bytes} (id : ℤ) (p : Packet) (peer : Addr) (buf : Bytes)
      → Replies n out
      → marshal (ping_reply id p peer) ≡ ok buf
      → Replies n (out ++ buf)

module _ {C : Type 0} where
  move-Replies : (v v' : View C) → Moves v v' → Replies v.next v.out → Replies v'.next v'.out
  move-Replies v v' stays h = h
  move-Replies v v' (opens c buf m) h = opened buf h m
  move-Replies v v' (closes id) h = h
  move-Replies v v' (answers id p peer buf m) h = answered id p peer buf h m

module _ {W Conn : Type 0} (sys : System W) (net : Network W Conn) where
  keep_Replies :
      (es : List Event) (s s' : Server W Conn)
      → run sys net s es ≡ ok s'
      → Replies s.next_id s.out
      → Replies s'.next_id s'.out
  unfolding run
  keep_Replies [] s s' h f = subst (λ x. Replies x.next_id x.out) (ok-injective h) f
  keep_Replies (e ∷ es) s s' h f =
      let (t, q, r) = >>=-eq-ok (step sys net s e) _ h in
      keep_Replies es t s' r (move-Replies _ _ (step-Moves sys net s e t q) f)

  -- Whatever the client sends and whatever happens, what the server has written is a sequence of
  -- whole messages, each a reply to OpenConnection or a ping reply; the replies to OpenConnection
  -- carry the ids 0, 1, 2, ... in this order, as many as were given out. In particular nothing ever
  -- replies to CloseConnection.
  pub run-Replies :
      (input : Bytes) (world : W) (es : List Event) (s : Server W Conn)
      → run sys net (new_server input world) es ≡ ok s
      → Replies s.next_id s.out
  run-Replies input world es s h = keep_Replies es (new_server input world) s h silent
