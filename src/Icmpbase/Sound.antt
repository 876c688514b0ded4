-- ===== src/Icmpbase/Sound.antt =====
-- internal/backend/icmpbase/service_normal.go: the results and the connections they are for.
use vasily.Base.{
  ℕ, zero, suc, ◌+◌, ◌==◌, ==_iff, ltb, Bool, true, false, Bool-cases, ◌&&◌, Option, none, some,
  some_injective, [], ◌∷◌, ◌++◌, get_elem?, set, All-append, get_elem?-map, if-eq, ok, ok-injective,
  ◌≡◌, inl, inr, refl, sym, ◌∙◌,
}
use mathlib.Core.Path.{subst}
use vasily.Backend.{Addr, Packet, packet_request}
use vasily.Icmpbase.{
  ListenerKey, ReadResult, Conn, Service, listener, choose_id, register_reader, send, pass_on,
  send_to_receiver, receive, read_from, close_listed, wait_closed, release, return_close,
}
use vasily.Icmpbase.Owned.{
  IsFor, HasOwn, keys, IsListed, IsAimed, Delivers, IsSound, unlisten-All, listener-All, put_back,
  at, keys-append, keys_here, IsAimed-append,
}

module _ (s : Service) (h : IsSound s) where
  pub register-IsSound : (n id proto : ℕ) → IsSound (register_reader s n id proto)
  unfolding register_reader
  register-IsSound zero id proto = h
  register-IsSound (suc n) id proto =
      let key : ListenerKey = record { id = (choose_id id s.next_id).0; proto = proto } in
      let c : Conn = record { key = key; is_closed = false; received = []; close_waits = 0 } in
      record {
        listed = (
          keys_here s.conns c,
          unlisten-All (IsListed (keys (s.conns ++ (c ∷ [])))) key s.listeners
              (keys-append s.conns c s.listeners h.listed),
        );
        own = All-append HasOwn s.conns (c ∷ []) h.own (tt, tt);
        aimed = IsAimed-append s.conns c s.sending h.aimed;
      }

  send-IsSound :
      (i : ℕ) (r : ReadResult) (k : ListenerKey) (o : Option Conn) (s' : Service)
      → get_elem? (keys s.conns) i ≡ some k
      → IsFor k r
      → send s i r o ≡ ok s'
      → IsSound s'
  unfolding send
  send-IsSound i r k none s' g f e = subst IsSound (ok-injective e) h
  send-IsSound i r k (some c) s' g f e = elim (if-eq c.is_closed _ _ e) [
    | inl (q, e) ↦ cc
    | inr (q, e) ↦
        subst IsSound (ok-injective e)
          (record { listed = h.listed; own = h.own; aimed = (k, g, f) })
  ]

  pass_on-IsSound :
      (r : ReadResult) (key : ListenerKey) (o : Option ℕ) (s' : Service)
      → listener key s.listeners ≡ o
      → IsFor key r
      → pass_on s r o ≡ ok s'
      → IsSound s'
  unfolding pass_on
  pass_on-IsSound r key none s' g f e = subst IsSound (ok-injective e) h
  pass_on-IsSound r key (some i) s' g f e =
      send-IsSound i r key (get_elem? s.conns i) s'
        (listener-All (IsListed (keys s.conns)) key s.listeners i h.listed g) f e

  pub arrive-IsSound :
      (pkt : Packet) (peer : Addr) (key : ListenerKey) (s' : Service)
      → send_to_receiver s pkt peer key ≡ ok s'
      → IsSound s'
  unfolding send_to_receiver
  arrive-IsSound pkt peer key s' e = elim (if-eq (pkt.packet_type == packet_request) _ _ e) [
    | inl (q, e) ↦ subst IsSound (ok-injective e) h
    | inr (q, e) ↦
        pass_on-IsSound (record { packet = pkt; peer = peer; id = key.id }) key
          (listener key s.listeners) s' refl
          (record { same_id = refl; no_request = λ z. differ q ((==_iff _ _).1 z) }) e
  ]
    where
      differ : {b : Bool} → b ≡ false → b ≡ true → ⊥
      differ p q = cc

  receive-IsSound :
      (i : ℕ) (r : ReadResult) (o : Option Conn)
      → get_elem? s.conns i ≡ o
      → IsAimed (keys s.conns) (some (i, r))
      → IsSound (receive s i r o)
  unfolding receive
  receive-IsSound i r none g a = h
  receive-IsSound i r (some c) g (k, l, f) =
      let e : k ≡ c.key =
        some_injective (sym l ∙ get_elem?-map (λ (c : Conn). c.key) s.conns i g) in
      put_back s.sending none s.listeners s.conns i c (record c { received = r ∷ c.received }) h g
        refl (subst (λ k. IsFor k r) e f, at s i c h g) (λ a. tt)

  pub read-IsSound :
      (i : ℕ) (d : Option (ℕ × ReadResult)) → s.sending ≡ d → IsSound (read_from s i d)
  unfolding read_from
  read-IsSound i none e = h
  read-IsSound i (some (j, r)) e = elim (Bool-cases (i == j)) [
    | inl q ↦ rw q (
        receive-IsSound i r (get_elem? s.conns i) refl (
          subst (λ m. IsAimed (keys s.conns) (some (m, r))) (sym ((==_iff i j).0 q))
            (subst (IsAimed (keys s.conns)) e h.aimed)))
    | inr q ↦ rw q h
  ]

  pub wait-IsSound :
      (i : ℕ) (o : Option Conn) → get_elem? s.conns i ≡ o → IsSound (wait_closed s i o)
  wait-IsSound i none g = h
  wait-IsSound i (some c) g =
      put_back s.sending s.sending s.listeners s.conns i c
        (record c { close_waits = c.close_waits + 1 }) h g refl (at s i c h g) (λ a. a)

  pub close_listed-IsSound :
      (key : ListenerKey) (j : ℕ) (o : Option Conn) (s' : Service)
      → get_elem? s.conns j ≡ o
      → close_listed s key j o ≡ ok s'
      → IsSound s'
  unfolding close_listed
  close_listed-IsSound key j none s' g e = cc
  close_listed-IsSound key j (some d) s' g e = elim (if-eq d.is_closed _ _ e) [
    | inl (q, e) ↦ cc
    | inr (q, e) ↦
        let k =
          put_back s.sending s.sending s.listeners s.conns j d (record d { is_closed = true }) h g
            refl (at s j d h g) (λ a. a) in
        subst IsSound (ok-injective e) (record {
          listed = unlisten-All _ key s.listeners k.listed;
          own = k.own;
          aimed = k.aimed;
        })
  ]

  release-IsSound :
      (i : ℕ) (c : Conn) (n : ℕ) → get_elem? s.conns i ≡ some c → IsSound (release s i c n)
  unfolding release
  release-IsSound i c zero g = h
  release-IsSound i c (suc n) g = elim (Bool-cases (c.is_closed && ltb 0 s.active)) [
    | inl q ↦ rw q (record { listed = k.listed; own = k.own; aimed = k.aimed })
    | inr q ↦ rw q h
  ]
    where
      k : Delivers s.sending s.listeners (set s.conns i (record c { close_waits = n }))
      k =
          put_back s.sending s.sending s.listeners s.conns i c (record c { close_waits = n }) h g
            refl (at s i c h g) (λ a. a)

  pub return-IsSound :
      (i : ℕ) (o : Option Conn) → get_elem? s.conns i ≡ o → IsSound (return_close s i o)
  unfolding return_close
  return-IsSound i none g = h
  return-IsSound i (some c) g = release-IsSound i c c.close_waits g
