-- ===== src/Privsep/Client/Tidy.antt =====
-- internal/privsep/client: what a connection holds, and where the demultiplexer is aimed.
use vasily.Base.{
  ℕ, Option, none, some, List, ◌++◌, map, All, get_elem?, set, get_elem?-append, get_elem?-map,
  get_elem?-of_map, All-set, All-get_elem?, map-set, ◌≡◌, sym, ap, ◌∙◌,
}
use mathlib.Core.Path.{subst}
use vasily.Base.Int.{ℤ}
use vasily.Privsep.Server.Conns.{Table, lookup}
use vasily.Privsep.Client.{Reply, Connection, Demux, reading, offering, delivering, stopped, Client}

abbrev pub IsFor : ℤ → Reply → Type 0
IsFor id r = r.id ≡ id

abbrev pub IsHeldFor : ℤ → Option Reply → Type 0
IsHeldFor id none = Unit {0}
IsHeldFor id (some r) = IsFor id r

-- What a connection holds and has handed out is for it.
pub record IsTidy (o : Connection) : Type 0 where
  pub held : IsHeldFor o.id o.read_from
  pub handed : All (IsFor o.id) o.received

abbrev pub ids : List Connection → List ℤ
ids objects = map (λ (o : Connection). o.id) objects

abbrev pub IsAimed : List ℤ → Demux → Type 0
IsAimed known (delivering i r) = get_elem? known i ≡ some r.id
IsAimed known reading = Unit {0}
IsAimed known (offering id) = Unit {0}
IsAimed known stopped = Unit {0}

-- The map sends an id to a connection with that id, and a blocked delivery is aimed well.
pub record Routed (demux : Demux) (connections : Table ℕ) (objects : List Connection) : Type 0 where
  pub mapped :
      (id : ℤ) (i : ℕ) → lookup id connections ≡ some i → get_elem? (ids objects) i ≡ some id
  pub tidy : All IsTidy objects
  pub aimed : IsAimed (ids objects) demux

abbrev pub IsRouted : Client → Type 0
IsRouted c = Routed c.demux c.connections c.objects

-- A write that keeps the connection's id.
pub put_back :
    (d d' : Demux) (t : Table ℕ) (xs : List Connection) (i : ℕ) (o o' : Connection)
    → Routed d t xs
    → get_elem? xs i ≡ some o
    → o'.id ≡ o.id
    → IsTidy o'
    → (IsAimed (ids xs) d → IsAimed (ids xs) d')
    → Routed d' t (set xs i o')
put_back d d' t xs i o o' h g e k a =
    let same : ids xs ≡ ids (set xs i o') = sym (map-set (λ (o : Connection). o.id) xs i g e) in
    record {
      mapped = λ id j l. subst (λ ks. get_elem? ks j ≡ some id) same (h.mapped id j l);
      tidy = All-set IsTidy xs i o' h.tidy k;
      aimed = subst (λ ks. IsAimed ks d') same (a h.aimed);
    }

pub IsTidy-at :
    (d : Demux) (t : Table ℕ) (xs : List Connection) (i : ℕ) (o : Connection)
    → Routed d t xs
    → get_elem? xs i ≡ some o
    → IsTidy o
IsTidy-at d t xs i o h g = All-get_elem? IsTidy xs i h.tidy g

pub ids-append :
    (xs ys : List Connection) (j : ℕ) (id : ℤ)
    → get_elem? (ids xs) j ≡ some id
    → get_elem? (ids (xs ++ ys)) j ≡ some id
ids-append xs ys j id g =
    let (o, at, e) = get_elem?-of_map (λ (o : Connection). o.id) xs j g in
    get_elem?-map (λ (o : Connection). o.id) (xs ++ ys) j (get_elem?-append xs ys j at) ∙ ap some e

pub IsAimed-append :
    (xs ys : List Connection) (d : Demux) → IsAimed (ids xs) d → IsAimed (ids (xs ++ ys)) d
IsAimed-append xs ys reading a = tt
IsAimed-append xs ys (offering id) a = tt
IsAimed-append xs ys (delivering i r) a = ids-append xs ys i r.id a
IsAimed-append xs ys stopped a = tt
