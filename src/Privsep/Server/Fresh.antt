-- ===== src/Privsep/Server/Fresh.antt =====
-- internal/privsep/server.go: the ids of the connections.
use vasily.Base.{
  ℕ, ◌+◌, ◌≤◌, none, some, List, [], ◌∷◌, ◌++◌, ◌≡◌, ◌≢◌, inl, inr, refl, sym, ap, ◌∙◌, arith, ok,
  >>=-eq-ok, ok-injective,
}
use mathlib.Core.Path.{subst}
use vasily.Base.Int.{ℤ, pos, pos_part}
use vasily.Backend.{Bytes}
use vasily.Messages.Kinds.{open_connection_reply, marshal}
use vasily.Privsep.Privileges.{System}
use vasily.Privsep.Server.{Network, Server, new_server, Event, handle_open_connection, step, run}
use vasily.Privsep.Server.Conns.{
  Table, lookup, delete, insert, lookup-insert_self, lookup-insert_ne, lookup-delete_self,
  lookup-delete_ne, same_id_cases,
}
use vasily.Privsep.Server.Moves.{View, Moves, stays, opens, closes, answers, step-Moves, open-eq-ok}

-- No open connection has an id that is still to be given out.
abbrev pub IsFresh : {C : Type 0} → ℕ → Table C → Type 0
IsFresh next t = (k : ℕ) → next ≤ k → lookup (pos k) t ≡ none

module _ {C : Type 0} where
  insert-IsFresh :
      (next : ℕ) (c : C) (t : Table C) → IsFresh next t → IsFresh (next + 1) (insert (pos next) c t)
  insert-IsFresh next c t h k le =
      lookup-insert_ne (pos k) (pos next) c t (λ e. absurd (later (ap pos_part e)))
      ∙ h k (omega arith)
    where
      later : k ≡ next → ⊥
      later e = omega arith

  delete-IsFresh : (next : ℕ) (id : ℤ) (t : Table C) → IsFresh next t → IsFresh next (delete id t)
  delete-IsFresh next id t h k le = elim (same_id_cases (pos k) id) [
    | inl e ↦ ap (λ x. lookup x (delete id t)) e ∙ lookup-delete_self id t
    | inr e ↦ lookup-delete_ne (pos k) id t e ∙ h k le
  ]

  move-IsFresh : (v v' : View C) → Moves v v' → IsFresh v.next v.table → IsFresh v'.next v'.table
  move-IsFresh v v' stays h = h
  move-IsFresh v v' (opens c buf m) h = insert-IsFresh v.next c v.table h
  move-IsFresh v v' (closes id) h = delete-IsFresh v.next id v.table h
  move-IsFresh v v' (answers id p peer buf m) h = h

module _ {W Conn : Type 0} (sys : System W) (net : Network W Conn) where
  run-IsFresh :
      (es : List Event) (s s' : Server W Conn)
      → run sys net s es ≡ ok s'
      → IsFresh s.next_id s.conns
      → IsFresh s'.next_id s'.conns
  unfolding run
  run-IsFresh [] s s' h f = subst (λ x. IsFresh x.next_id x.conns) (ok-injective h) f
  run-IsFresh (e ∷ es) s s' h f =
      let (t, q, r) = >>=-eq-ok (step sys net s e) _ h in
      run-IsFresh es t s' r (move-IsFresh _ _ (step-Moves sys net s e t q) f)

  -- When the server, after any run from its start, opens a connection, the id it gives out belongs
  -- to no open connection, names a connection from then on, and is the one that the reply on the
  -- pipe carries; what every other id names is as before.
  pub run-open_fresh :
      (input : Bytes) (world : W) (es : List Event) (s s' : Server W Conn) (backend : Bytes)
      (ip_ver : ℕ) (other : ℤ)
      → run sys net (new_server input world) es ≡ ok s
      → handle_open_connection sys net s backend ip_ver ≡ ok s'
      → other ≢ pos s.next_id
      → (lookup (pos s.next_id) s.conns ≡ none)
        × (lookup other s'.conns ≡ lookup other s.conns)
        × ((c : Conn) × (lookup (pos s.next_id) s'.conns ≡ some c))
        × ((buf : Bytes) × (marshal (open_connection_reply (pos s.next_id)) ≡ ok buf)
            × (s'.out ≡ s.out ++ buf))
  run-open_fresh input world es s s' backend ip_ver other h o ne =
      let fresh = run-IsFresh es (new_server input world) s h (λ k le. unfold lookup in refl) in
      let (c, buf, w, m, e) = open-eq-ok sys net s backend ip_ver o in
      (
        fresh s.next_id (omega arith),
        sym (ap (λ x. lookup other x.conns) e)
            ∙ lookup-insert_ne other (pos s.next_id) c s.conns ne,
        (
          c,
          sym (ap (λ x. lookup (pos s.next_id) x.conns) e)
              ∙ lookup-insert_self (pos s.next_id) c s.conns,
        ),
        (buf, m, sym (ap (λ x. x.out) e)),
      )
