-- ===== src/Privsep/Client/Routing.antt =====
-- internal/privsep/client: replies and the connections that they are for.
use vasily.Base.{
  ℕ, Bool, Option, none, some, List, [], ◌∷◌, ◌++◌, All, get_elem?, set, ◌+◌, ◌≡◌, inl, inr, ◌⊎◌,
  refl, Result, ok, err, panic, >>=-eq-ok, if-eq, if-keeps, ok-injective,
}
use mathlib.Core.Path.{subst}
use vasily.Base.Int.{ℤ, pos}
use vasily.Backend.{option_ttl, Addr, Bytes, Packet, WriteOption}
use vasily.Messages.Kinds.{
  Message, shutdown, privilege_drop, open_connection, open_connection_reply, close_connection,
  close_connection_reply, send_ping, ping_reply, raw, read_message,
}
use vasily.Privsep.Server.Conns.{lookup}
use vasily.Privsep.Client.{
  Connection, Demux, reading, offering, delivering, stopped, Client, Event, demuxes, opens, takes,
  registers, writes, reads, closes, close_returns, shuts_down, is_locked, or_unchanged, new_client,
  send_message, dispatch, input_demux, open_conn, take_reply, write_to, close_conn, demux_step,
  step, run,
}
use vasily.Privsep.Client.Sends.{or_unchanged_keeps, or_unchanged_cases, send_message-eq-ok}
use vasily.Privsep.Client.Tidy.{IsTidy, ids, Routed, IsRouted}
use vasily.Privsep.Client.Routed.{
  ping-IsRouted, close_reply-IsRouted, register-IsRouted, read-IsRouted, return-IsRouted,
  counted-IsRouted,
}

-- The same connections and map, with the demultiplexer at its next message or in an offer.
at_rest : (c : Client) → IsRouted c → Routed reading c.connections c.objects
at_rest c h = record { mapped = h.mapped; tidy = h.tidy; aimed = tt }

dispatch-IsRouted : (c : Client) (msg : Message) → IsRouted c → IsRouted (dispatch c msg)
unfolding dispatch
dispatch-IsRouted c (open_connection_reply id) h = record {
  mapped = h.mapped;
  tidy = h.tidy;
  aimed = tt;
}
dispatch-IsRouted c (close_connection_reply id) h =
    close_reply-IsRouted c h id (lookup id c.connections)
dispatch-IsRouted c (ping_reply id packet peer) h =
    ping-IsRouted c h (record { id = id; packet = packet; peer = peer }) (lookup id c.connections)
      refl
dispatch-IsRouted c shutdown h = h
dispatch-IsRouted c privilege_drop h = h
dispatch-IsRouted c (open_connection backend ip_ver) h = h
dispatch-IsRouted c (close_connection id) h = h
dispatch-IsRouted c (send_ping id packet addr ttl) h = h
dispatch-IsRouted c (raw m) h = h

demux-IsRouted :
    (c : Client) (r : Result (Message × Bytes)) (c' : Client)
    → IsRouted c
    → input_demux c r ≡ ok c'
    → IsRouted c'
unfolding input_demux
demux-IsRouted c (ok (msg, rest)) c' h e =
    subst IsRouted (ok-injective e) (dispatch-IsRouted (record c { input = rest }) msg h)
demux-IsRouted c (err x) c' h e =
    subst IsRouted (ok-injective e) (record { mapped = h.mapped; tidy = h.tidy; aimed = tt })
demux-IsRouted c panic c' h e = cc

demux_step-IsRouted :
    (c : Client) (d : Demux) (c' : Client) → IsRouted c → demux_step c d ≡ ok c' → IsRouted c'
unfolding demux_step
demux_step-IsRouted c reading c' h e = demux-IsRouted c (read_message c.input) c' h e
demux_step-IsRouted c (offering id) c' h e = subst IsRouted (ok-injective e) h
demux_step-IsRouted c (delivering i r) c' h e = subst IsRouted (ok-injective e) h
demux_step-IsRouted c stopped c' h e = subst IsRouted (ok-injective e) h

take_reply-IsRouted :
    (c : Client) (d : Demux) (opening : List Bytes) → IsRouted c → IsRouted (take_reply c d opening)
unfolding take_reply
take_reply-IsRouted c (offering id) (b ∷ opening) h = record {
  mapped = h.mapped;
  tidy = h.tidy;
  aimed = tt;
}
take_reply-IsRouted c (offering id) [] h = h
take_reply-IsRouted c reading opening h = h
take_reply-IsRouted c (delivering i r) opening h = h
take_reply-IsRouted c stopped opening h = h

-- A call that only writes a message.
sent-IsRouted :
    (c : Client) (msg : Message) (written : Bool) (c' : Client)
    → IsRouted c
    → or_unchanged c (send_message c msg written) ≡ ok c'
    → IsRouted c'
sent-IsRouted c msg written c' h e = elim (or_unchanged_cases c (send_message c msg written) e) [
  | inl q ↦ subst IsRouted q h
  | inr q ↦ let (buf, k) = send_message-eq-ok c msg written q in subst IsRouted k h
]

write_to-IsRouted :
    (c : Client) (o : Option Connection) (p : Packet) (dest : Addr) (opts : List WriteOption)
    (written : Bool) (c' : Client)
    → IsRouted c
    → write_to c o p dest opts written ≡ ok c'
    → IsRouted c'
unfolding write_to
write_to-IsRouted c none p dest opts written c' h e = subst IsRouted (ok-injective e) h
write_to-IsRouted c (some o) p dest opts written c' h e = elim (if-eq o.attached _ _ e) [
  | inl (a, s) ↦
      if-keeps IsRouted (is_locked c.demux) c _ c' h
        (sent-IsRouted c (send_ping o.id p dest (option_ttl (pos 0) opts)) written c' h) s
  | inr (a, s) ↦ cc
]

close_conn-IsRouted :
    (c : Client) (i : ℕ) (o : Option Connection) (written : Bool) (c' : Client)
    → IsRouted c
    → get_elem? c.objects i ≡ o
    → close_conn c i o written ≡ ok c'
    → IsRouted c'
unfolding close_conn
close_conn-IsRouted c i none written c' h g e = subst IsRouted (ok-injective e) h
close_conn-IsRouted c i (some o) written c' h g e = elim (if-eq o.attached _ _ e) [
  | inl (a, s) ↦
      if-keeps IsRouted (is_locked c.demux) c _ c' h
        (or_unchanged_keeps IsRouted c (close_connection o.id) written
          (λ b. record b {
            objects = set b.objects i (record o { close_waits = o.close_waits + 1 });
          })
          h
          (λ buf.
            counted-IsRouted c h i o (record o { close_waits = o.close_waits + 1 }) g refl refl
              refl))
        s
  | inr (a, s) ↦ cc
]

step-IsRouted : (c : Client) (e : Event) (c' : Client) → IsRouted c → step c e ≡ ok c' → IsRouted c'
unfolding step
step-IsRouted c demuxes c' h e = demux_step-IsRouted c c.demux c' h e
step-IsRouted c (opens backend ip_ver written) c' h e =
    if-keeps IsRouted (is_locked c.demux) c (open_conn c backend ip_ver written) c' h
      (λ s.
        or_unchanged_keeps IsRouted c (open_connection backend ip_ver) written
          (λ b. record b { opening = b.opening ++ (backend ∷ []) }) h (λ buf. h)
          (unfold open_conn in s))
      e
step-IsRouted c takes c' h e =
    subst IsRouted (ok-injective e) (take_reply-IsRouted c c.demux c.opening h)
step-IsRouted c (registers i) c' h e =
    if-keeps IsRouted (is_locked c.demux) c _ c' h
      (λ s. subst IsRouted (ok-injective s) (register-IsRouted c h i (get_elem? c.registering i))) e
step-IsRouted c (writes i packet dest opts written) c' h e =
    write_to-IsRouted c (get_elem? c.objects i) packet dest opts written c' h e
step-IsRouted c (reads i) c' h e =
    subst IsRouted (ok-injective e) (read-IsRouted c h i (get_elem? c.objects i) refl)
step-IsRouted c (closes i written) c' h e =
    close_conn-IsRouted c i (get_elem? c.objects i) written c' h refl e
step-IsRouted c (close_returns i) c' h e =
    subst IsRouted (ok-injective e) (return-IsRouted c h i (get_elem? c.objects i) refl)
step-IsRouted c (shuts_down written) c' h e =
    if-keeps IsRouted (is_locked c.demux) c _ c' h (sent-IsRouted c shutdown written c' h) e

run-IsRouted : (es : List Event) (c c' : Client) → IsRouted c → run c es ≡ ok c' → IsRouted c'
unfolding run
run-IsRouted [] c c' h e = subst IsRouted (ok-injective e) h
run-IsRouted (x ∷ es) c c' h e =
    let (b, q, k) = >>=-eq-ok (step c x) _ e in run-IsRouted es b c' (step-IsRouted c x b h q) k

-- Whatever the server writes, and in whatever order the demultiplexer, the registrations and the
-- users' calls run: every connection, in the map or not, holds, and has handed out through
-- `ReadFrom`, replies with its own id only; and an id is not in the map, or leads to the connection
-- that has it.
pub run_routed :
    (input : Bytes) (es : List Event) (c : Client) (id : ℤ)
    → run (new_client input) es ≡ ok c
    → All IsTidy c.objects
      × ((lookup id c.connections ≡ none)
          ⊎ ((i : ℕ) × (lookup id c.connections ≡ some i)
              × (get_elem? (ids c.objects) i ≡ some id)))
unfolding lookup
run_routed input es c id e =
    let start : IsRouted (new_client input) = record {
      mapped = λ id i l. absurd (none_mapped l);
      tidy = tt;
      aimed = tt;
    } in
    let h = run-IsRouted es (new_client input) c start e in
    (h.tidy, found (lookup id c.connections) refl h)
  where
    none_mapped : {i : ℕ} → ◌≡◌ {A = Option ℕ} none (some i) → ⊥
    none_mapped l = cc

    found :
        (o : Option ℕ)
        → lookup id c.connections ≡ o
        → IsRouted c
        → (lookup id c.connections ≡ none)
          ⊎ ((i : ℕ) × (lookup id c.connections ≡ some i) × (get_elem? (ids c.objects) i ≡ some id))
    found none q h = inl q
    found (some i) q h = inr (i, q, h.mapped id i q)
