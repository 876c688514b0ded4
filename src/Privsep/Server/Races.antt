-- ===== src/Privsep/Server/Races.antt =====
-- Connections that are gone, and input that ends early.
use vasily.Base.{ℕ, true, false, none, some, ◌∷◌, ◌++◌, get_elem?, ◌≡◌, sym, ap, ◌∙◌, ok, panic}
use vasily.Base.Int.{ℤ}
use vasily.Backend.{Addr, Bytes, Packet}
use vasily.Messages.Raw.{RawMessage}
use vasily.Messages.Framing.{frame}
use vasily.Messages.Streams.{read_raw_message_truncated}
use vasily.Messages.Kinds.{close_connection, send_ping, read_message}
use vasily.Privsep.Privileges.{System}
use vasily.Privsep.Server.{
  Network, starting, Server, reads, starts, conn_for, handle_close_connection, handle_send_ping,
  handle_message, main_loop, start_reader, act, step,
}
use vasily.Privsep.Server.Conns.{lookup, lookup-delete_self}
use vasily.Privsep.Server.Moves.{close-eq-ok}

module _ {W Conn : Type 0} (sys : System W) (net : Network W Conn) where
  closed_lookup :
      (s s' : Server W Conn) (id : ℤ)
      → handle_message sys net s (close_connection id) ≡ ok s'
      → lookup id s'.conns ≡ none
  unfolding handle_message
  closed_lookup s s' id h =
      let (c, w, n, e) = close-eq-ok sys net s id h in
      sym (ap (λ x. lookup id x.conns) e) ∙ lookup-delete_self id s.conns

  -- After a connection was closed, a ping over it or a second close panics.
  pub closed_id_panics :
      (s s' : Server W Conn) (id : ℤ) (p : Packet) (addr : Addr) (ttl : ℤ)
      → handle_message sys net s (close_connection id) ≡ ok s'
      → (handle_message sys net s' (close_connection id) ≡ panic)
        × (handle_message sys net s' (send_ping id p addr ttl) ≡ panic)
  unfolding handle_message handle_close_connection handle_send_ping conn_for
  closed_id_panics s s' id p addr ttl h = let gone = closed_lookup s s' id h in (rw gone, rw gone)

  -- If a connection is closed before the goroutine that was started to read from it has looked its
  -- connection up, that goroutine panics when it does.
  pub closed_reader_panics :
      (s s' : Server W Conn) (id : ℤ) (i : ℕ)
      → handle_message sys net s (close_connection id) ≡ ok s'
      → s'.exited ≡ false
      → get_elem? s'.readers i ≡ some (starting id)
      → step sys net s' (starts i) ≡ panic
  unfolding step act start_reader conn_for
  closed_reader_panics s s' id i h live r = rw (live, r, closed_lookup s s' id h)

  -- Where the client's end of the pipe closes inside a message, the main loop returns as it does
  -- at the end of the last message: the piece has no effect and is not reported.
  pub cut_message_ends :
      (s : Server W Conn) (m : RawMessage) (front back : Bytes) (x : ℕ)
      → s.exited ≡ false
      → s.running ≡ true
      → s.input ≡ front
      → frame m ≡ front ++ (x ∷ back)
      → step sys net s reads ≡ ok (record s { running = false })
  unfolding step act main_loop read_message
  cut_message_ends s m front back x live running input cut =
      rw (live, running, input, read_raw_message_truncated m front back x cut)
