-- ===== src/Privsep/Client/Routed.antt =====
-- internal/privsep/client: the invariant on replies and their connections.
use vasily.Base.{
  ℕ, zero, suc, ◌+◌, ◌==◌, ==_iff, true, false, Bool-cases, Option, none, some, [], ◌∷◌, ◌++◌,
  length, get_elem?, set, some_injective, get_elem?-append_self, get_elem?-map, All-append, ◌≡◌,
  ◌≢◌, inl, inr, refl, sym, ap, ◌∙◌, ◌⊎◌,
}
use mathlib.Core.Path.{subst}
use vasily.Base.Int.{ℤ}
use vasily.Backend.{Bytes}
use vasily.Privsep.Server.Conns.{
  lookup, insert, delete, lookup-insert_self, lookup-insert_ne, lookup-delete_self,
  lookup-delete_ne, same_id_cases,
}
use vasily.Privsep.Client.{
  Reply, Connection, Demux, reading, offering, delivering, stopped, Client, new_connection, offer,
  deliver, handle_ping_reply, notify, handle_close_connection_reply, register, handed_out, refill,
  take_held, return_one, read_from_conn, return_close,
}
use vasily.Privsep.Client.Tidy.{
  IsHeldFor, IsTidy, ids, IsAimed, Routed, IsRouted, put_back, IsTidy-at, ids-append,
  IsAimed-append,
}

module _ (c : Client) (h : IsRouted c) where
  offer-IsRouted :
      (i : ℕ) (r : Reply) (o : Connection) (b : Option Reply)
      → get_elem? c.objects i ≡ some o
      → get_elem? (ids c.objects) i ≡ some r.id
      → IsRouted (offer c i r o b)
  unfolding offer
  offer-IsRouted i r o none g a =
      let own : o.id ≡ r.id =
        some_injective (sym (get_elem?-map (λ (o : Connection). o.id) c.objects i g) ∙ a) in
      put_back c.demux c.demux c.connections c.objects i o (record o { read_from = some r }) h g
        refl
        (record {
          held = sym own;
          handed = (IsTidy-at c.demux c.connections c.objects i o h g).handed;
        })
        (λ x. x)
  offer-IsRouted i r o (some held) g a = record { mapped = h.mapped; tidy = h.tidy; aimed = a }

  deliver-IsRouted :
      (i : ℕ) (r : Reply) (o : Option Connection)
      → get_elem? c.objects i ≡ o
      → get_elem? (ids c.objects) i ≡ some r.id
      → IsRouted (deliver c i r o)
  unfolding deliver
  deliver-IsRouted i r none g a = h
  deliver-IsRouted i r (some o) g a = offer-IsRouted i r o o.read_from g a

  pub ping-IsRouted :
      (r : Reply) (o : Option ℕ)
      → lookup r.id c.connections ≡ o
      → IsRouted (handle_ping_reply c r o)
  unfolding handle_ping_reply
  ping-IsRouted r none e = h
  ping-IsRouted r (some i) e = deliver-IsRouted i r (get_elem? c.objects i) refl (h.mapped r.id i e)

  delete-mapped :
      (id other : ℤ) (i : ℕ)
      → lookup other (delete id c.connections) ≡ some i
      → get_elem? (ids c.objects) i ≡ some other
  delete-mapped id other i e = elim (same_id_cases other id) [
    | inl s ↦ absurd (
        gone (
          sym (ap (λ k. lookup k (delete id c.connections)) s ∙ lookup-delete_self id c.connections)
          ∙ e))
    | inr n ↦ h.mapped other i (sym (lookup-delete_ne other id c.connections n) ∙ e)
  ]
    where
      gone : {i : ℕ} → ◌≡◌ {A = Option ℕ} none (some i) → ⊥
      gone e = cc

  pub close_reply-IsRouted :
      (id : ℤ) (o : Option ℕ) → IsRouted (handle_close_connection_reply c id o)
  unfolding handle_close_connection_reply
  close_reply-IsRouted id none = h
  close_reply-IsRouted id (some i) =
      noted (get_elem? c.objects i) refl
        (record { mapped = delete-mapped id; tidy = h.tidy; aimed = h.aimed })
    where
      noted :
          (o : Option Connection)
          → get_elem? c.objects i ≡ o
          → Routed c.demux (delete id c.connections) c.objects
          → IsRouted (notify (record c { connections = delete id c.connections }) i o)
      noted none g k = k
      noted (some o) g k =
          let own = IsTidy-at c.demux (delete id c.connections) c.objects i o k g in
          put_back c.demux c.demux (delete id c.connections) c.objects i o
            (record o { closed = true; attached = false }) k g refl
            (record { held = own.held; handed = own.handed }) (λ x. x)

  pub register-IsRouted : (i : ℕ) (p : Option (ℤ × Bytes)) → IsRouted (register c i p)
  unfolding register
  register-IsRouted i none = h
  register-IsRouted i (some (id, backend)) = record {
    mapped = λ other j l. added other j l (same_id_cases other id);
    tidy =
        All-append IsTidy c.objects (new_connection id backend ∷ []) h.tidy
          (record { held = tt; handed = tt }, tt);
    aimed = IsAimed-append c.objects (new_connection id backend ∷ []) c.demux h.aimed;
  }
    where
      added :
          (other : ℤ) (j : ℕ)
          → lookup other (insert id (length c.objects) c.connections) ≡ some j
          → (other ≡ id) ⊎ (other ≢ id)
          → get_elem? (ids (c.objects ++ (new_connection id backend ∷ []))) j ≡ some other
      added other j l (inl s) =
          let at : length c.objects ≡ j = some_injective (
            sym (
              ap (λ k. lookup k (insert id (length c.objects) c.connections)) s
              ∙ lookup-insert_self id (length c.objects) c.connections)
            ∙ l) in
          subst
            (λ k. get_elem? (ids (c.objects ++ (new_connection id backend ∷ []))) k ≡ some other) at
            (get_elem?-map (λ (o : Connection). o.id)
                (c.objects ++ (new_connection id backend ∷ [])) (length c.objects)
                (get_elem?-append_self c.objects [] (new_connection id backend))
              ∙ ap some (sym s))
      added other j l (inr n) = ids-append c.objects (new_connection id backend ∷ []) j other (
          h.mapped other j (sym (lookup-insert_ne other id (length c.objects) c.connections n) ∙ l))

  module _ (i : ℕ) (o : Connection) (r : Reply) (g : get_elem? c.objects i ≡ some o)
      (b : o.read_from ≡ some r) where
    handed_out-Routed :
        (d : Demux) (held : Option Reply)
        → IsHeldFor o.id held
        → (IsAimed (ids c.objects) c.demux → IsAimed (ids c.objects) d)
        → Routed d c.connections (handed_out c i o r held)
    handed_out-Routed d held k a =
        let own = IsTidy-at c.demux c.connections c.objects i o h g in
        put_back c.demux d c.connections c.objects i o
          (record o { read_from = held; received = r ∷ o.received }) h g refl
          (record { held = k; handed = (subst (IsHeldFor o.id) b own.held, own.handed) }) a

    refill-IsRouted : (d : Demux) → c.demux ≡ d → IsRouted (refill c i o r d)
    unfolding refill
    refill-IsRouted reading e = handed_out-Routed c.demux none tt (λ x. x)
    refill-IsRouted (offering id) e = handed_out-Routed c.demux none tt (λ x. x)
    refill-IsRouted stopped e = handed_out-Routed c.demux none tt (λ x. x)
    refill-IsRouted (delivering j next) e = elim (Bool-cases (i == j)) [
      | inl q ↦ rw q (handed_out-Routed reading (some next) (own_next q) (λ x. tt))
      | inr q ↦ rw q (handed_out-Routed c.demux none tt (λ x. x))
    ]
      where
        own_next : (i == j) ≡ true → next.id ≡ o.id
        own_next q =
            let aimed : get_elem? (ids c.objects) j ≡ some next.id =
              subst (IsAimed (ids c.objects)) e h.aimed in
            let here = get_elem?-map (λ (o : Connection). o.id) c.objects i g in
            let there : get_elem? (ids c.objects) i ≡ some next.id =
              subst (λ k. get_elem? (ids c.objects) k ≡ some next.id) (sym ((==_iff i j).0 q))
                aimed in
            some_injective (sym there ∙ here)

  take_held-IsRouted :
      (i : ℕ) (o : Connection) (b : Option Reply)
      → get_elem? c.objects i ≡ some o
      → o.read_from ≡ b
      → IsRouted (take_held c i o b)
  unfolding take_held
  take_held-IsRouted i o none g b = h
  take_held-IsRouted i o (some r) g b = refill-IsRouted i o r g b c.demux refl

  pub read-IsRouted :
      (i : ℕ) (o : Option Connection) → get_elem? c.objects i ≡ o → IsRouted (read_from_conn c i o)
  unfolding read_from_conn
  read-IsRouted i none g = h
  read-IsRouted i (some o) g = take_held-IsRouted i o o.read_from g refl

  -- A write that touches neither the id nor the replies.
  pub counted-IsRouted :
      (i : ℕ) (o o' : Connection)
      → get_elem? c.objects i ≡ some o
      → o'.id ≡ o.id
      → o'.read_from ≡ o.read_from
      → o'.received ≡ o.received
      → Routed c.demux c.connections (set c.objects i o')
  counted-IsRouted i o o' g e b l =
      let own = IsTidy-at c.demux c.connections c.objects i o h g in
      put_back c.demux c.demux c.connections c.objects i o o' h g e
        (record { held = rw (e, b) own.held; handed = rw (e, l) own.handed }) (λ x. x)

  return_one-IsRouted :
      (i : ℕ) (o : Connection) (n : ℕ)
      → get_elem? c.objects i ≡ some o
      → IsRouted (return_one c i o n)
  unfolding return_one
  return_one-IsRouted i o zero g = h
  return_one-IsRouted i o (suc n) g = elim (Bool-cases o.closed) [
    | inl q ↦ rw q (
        counted-IsRouted i o
          (record o { closed = false; close_waits = n; close_returned = o.close_returned + 1 }) g
          refl refl refl)
    | inr q ↦ rw q h
  ]

  pub return-IsRouted :
      (i : ℕ) (o : Option Connection) → get_elem? c.objects i ≡ o → IsRouted (return_close c i o)
  unfolding return_close
  return-IsRouted i none g = h
  return-IsRouted i (some o) g = return_one-IsRouted i o o.close_waits g
