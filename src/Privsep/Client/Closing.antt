-- ===== src/Privsep/Client/Closing.antt =====
-- internal/privsep/client and server.go: a call of `Close`, from one end to the other.
use vasily.Base.{
  ℕ, ◌+◌, Bool, Option, none, some, List, [], ◌∷◌, ◌++◌, All, get_elem?, set, ◌≡◌, inl, inr, refl,
  Result, ok, err, panic, >>=-eq-ok, if-eq, if-keeps, ok-injective,
}
use mathlib.Core.Path.{subst}
use vasily.Base.Int.{pos}
use vasily.Backend.{option_ttl, Addr, Bytes, Packet, WriteOption}
use vasily.Messages.Kinds.{
  Message, shutdown, open_connection, close_connection, send_ping, read_message,
}
use vasily.Privsep.Privileges.{System}
use vasily.Privsep.Server.{Network}
use vasily.Privsep.Server
use vasily.Privsep.Server.Output.{run-Replies}
use vasily.Privsep.Client.{
  Connection, Demux, reading, offering, delivering, stopped, Client, Event, demuxes, opens, takes,
  registers, writes, reads, closes, close_returns, shuts_down, is_locked, new_client, send_message,
  input_demux, or_unchanged, open_conn, take_reply, write_to, close_conn, demux_step, step, run,
}
use vasily.Privsep.Client.Sends.{or_unchanged_keeps, or_unchanged_cases, send_message-eq-ok}
use vasily.Privsep.Client.Streams.{read_message-OnlyReplies, Replies-OnlyReplies}
use vasily.Privsep.Client.Quiet.{
  IsOpen, IsQuiet, dispatch-IsQuiet, register-IsQuiet, read-IsQuiet, return-IsQuiet, wait-IsQuiet,
}

demux-IsQuiet :
    (c : Client) (r : Result (Message × Bytes)) (c' : Client)
    → IsQuiet c
    → read_message c.input ≡ r
    → input_demux c r ≡ ok c'
    → IsQuiet c'
unfolding input_demux
demux-IsQuiet c (err x) c' h q e =
    subst IsQuiet (ok-injective e) (record { stream = h.stream; unanswered = h.unanswered })
demux-IsQuiet c panic c' h q e = cc
demux-IsQuiet c (ok (msg, rest)) c' h q e =
    let (n, k) = read_message-OnlyReplies c.input msg rest h.stream q in
    subst IsQuiet (ok-injective e) (
      dispatch-IsQuiet (record c { input = rest })
        (record { stream = k; unanswered = h.unanswered }) msg n)

demux_step-IsQuiet :
    (c : Client) (d : Demux) (c' : Client) → IsQuiet c → demux_step c d ≡ ok c' → IsQuiet c'
unfolding demux_step
demux_step-IsQuiet c reading c' h e = demux-IsQuiet c (read_message c.input) c' h refl e
demux_step-IsQuiet c (offering id) c' h e = subst IsQuiet (ok-injective e) h
demux_step-IsQuiet c (delivering i r) c' h e = subst IsQuiet (ok-injective e) h
demux_step-IsQuiet c stopped c' h e = subst IsQuiet (ok-injective e) h

take_reply-IsQuiet :
    (c : Client) (d : Demux) (opening : List Bytes) → IsQuiet c → IsQuiet (take_reply c d opening)
unfolding take_reply
take_reply-IsQuiet c (offering id) (b ∷ opening) h = record {
  stream = h.stream;
  unanswered = h.unanswered;
}
take_reply-IsQuiet c (offering id) [] h = h
take_reply-IsQuiet c reading opening h = h
take_reply-IsQuiet c (delivering i r) opening h = h
take_reply-IsQuiet c stopped opening h = h

wrote-IsQuiet : (c : Client) (buf : Bytes) → IsQuiet c → IsQuiet (record c { out = c.out ++ buf })
wrote-IsQuiet c buf h = record { stream = h.stream; unanswered = h.unanswered }

-- A call that only writes a message.
sent-IsQuiet :
    (c : Client) (msg : Message) (written : Bool) (c' : Client)
    → IsQuiet c
    → or_unchanged c (send_message c msg written) ≡ ok c'
    → IsQuiet c'
sent-IsQuiet c msg written c' h e = elim (or_unchanged_cases c (send_message c msg written) e) [
  | inl q ↦ subst IsQuiet q h
  | inr q ↦
      let (buf, k) = send_message-eq-ok c msg written q in subst IsQuiet k (wrote-IsQuiet c buf h)
]

write_to-IsQuiet :
    (c : Client) (o : Option Connection) (p : Packet) (dest : Addr) (opts : List WriteOption)
    (written : Bool) (c' : Client)
    → IsQuiet c
    → write_to c o p dest opts written ≡ ok c'
    → IsQuiet c'
unfolding write_to
write_to-IsQuiet c none p dest opts written c' h e = subst IsQuiet (ok-injective e) h
write_to-IsQuiet c (some o) p dest opts written c' h e = elim (if-eq o.attached _ _ e) [
  | inl (a, s) ↦
      if-keeps IsQuiet (is_locked c.demux) c _ c' h
        (sent-IsQuiet c (send_ping o.id p dest (option_ttl (pos 0) opts)) written c' h) s
  | inr (a, s) ↦ cc
]

close_conn-IsQuiet :
    (c : Client) (i : ℕ) (o : Option Connection) (written : Bool) (c' : Client)
    → IsQuiet c
    → get_elem? c.objects i ≡ o
    → close_conn c i o written ≡ ok c'
    → IsQuiet c'
unfolding close_conn
close_conn-IsQuiet c i none written c' h g e = subst IsQuiet (ok-injective e) h
close_conn-IsQuiet c i (some o) written c' h g e = elim (if-eq o.attached _ _ e) [
  | inl (a, s) ↦
      if-keeps IsQuiet (is_locked c.demux) c _ c' h
        (or_unchanged_keeps IsQuiet c (close_connection o.id) written
          (λ b. record b {
            objects = set b.objects i (record o { close_waits = o.close_waits + 1 });
          })
          h (λ buf. wait-IsQuiet c h i o buf g))
        s
  | inr (a, s) ↦ cc
]

step-IsQuiet : (c : Client) (e : Event) (c' : Client) → IsQuiet c → step c e ≡ ok c' → IsQuiet c'
unfolding step
step-IsQuiet c demuxes c' h e = demux_step-IsQuiet c c.demux c' h e
step-IsQuiet c (opens backend ip_ver written) c' h e =
    if-keeps IsQuiet (is_locked c.demux) c (open_conn c backend ip_ver written) c' h
      (λ s.
        or_unchanged_keeps IsQuiet c (open_connection backend ip_ver) written
          (λ b. record b { opening = b.opening ++ (backend ∷ []) }) h
          (λ buf. record { stream = h.stream; unanswered = h.unanswered }) (unfold open_conn in s))
      e
step-IsQuiet c takes c' h e =
    subst IsQuiet (ok-injective e) (take_reply-IsQuiet c c.demux c.opening h)
step-IsQuiet c (registers i) c' h e =
    if-keeps IsQuiet (is_locked c.demux) c _ c' h
      (λ s. subst IsQuiet (ok-injective s) (register-IsQuiet c h i (get_elem? c.registering i))) e
step-IsQuiet c (writes i packet dest opts written) c' h e =
    write_to-IsQuiet c (get_elem? c.objects i) packet dest opts written c' h e
step-IsQuiet c (reads i) c' h e =
    subst IsQuiet (ok-injective e) (read-IsQuiet c h i (get_elem? c.objects i) refl)
step-IsQuiet c (closes i written) c' h e =
    close_conn-IsQuiet c i (get_elem? c.objects i) written c' h refl e
step-IsQuiet c (close_returns i) c' h e =
    subst IsQuiet (ok-injective e) (return-IsQuiet c h i (get_elem? c.objects i) refl)
step-IsQuiet c (shuts_down written) c' h e =
    if-keeps IsQuiet (is_locked c.demux) c _ c' h (sent-IsQuiet c shutdown written c' h) e

run-IsQuiet : (es : List Event) (c c' : Client) → IsQuiet c → run c es ≡ ok c' → IsQuiet c'
unfolding run
run-IsQuiet [] c c' h e = subst IsQuiet (ok-injective e) h
run-IsQuiet (x ∷ es) c c' h e =
    let (b, q, k) = >>=-eq-ok (step c x) _ e in run-IsQuiet es b c' (step-IsQuiet c x b h q) k

-- Whatever the server is sent, and in whatever order it reads and its readers run, a client that
-- reads what this server wrote never finds the reply that `Close` waits for: in every order of the
-- client's steps the channel `closed` of every connection stays empty, and no call of `Close` whose
-- message was written returns.
pub close_never_returns :
    {W Conn : Type 0} (sys : System W) (net : Network W Conn) (input : Bytes) (world : W)
    (server_events : List Server.Event) (s : Server.Server W Conn) (es : List Event) (c : Client)
    → Server.run sys net (Server.new_server input world) server_events ≡ ok s
    → run (new_client s.out) es ≡ ok c
    → All IsOpen c.objects
close_never_returns sys net input world server_events s es c q e =
    let start : IsQuiet (new_client s.out) = record {
      stream = Replies-OnlyReplies (run-Replies sys net input world server_events s q);
      unanswered = tt;
    } in
    (run-IsQuiet es (new_client s.out) c start e).unanswered
