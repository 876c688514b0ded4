-- ===== src/Tracer.antt =====
-- internal/tracer/tracer.go: `TraceRoute` over what its probes meet.
pub mod Reads
pub mod Rounds
pub mod Steps
pub mod Ports
pub mod Clear
pub mod Paths
mod Tests
use vasily.Base.{
  ℕ, zero, suc, ◌+◌, ◌-◌, Bool, true, false, not, ◌&&◌, ◌||◌, Option, none, some, List, [], ◌∷◌,
  ◌==◌, if◌then◌else◌, Error, timeout, write_failed, max_ttl, unreachable, ◌⊎◌, inl, inr,
}
use vasily.Base.Int.{ℤ, pos, negsuc, pos_part, ◌-ℤ◌, eqb_ℤ}
use vasily.Backend.{
  Addr, Bytes, Packet, packet_request, packet_reply, packet_destination_unreachable,
}

-- Durations are in nanoseconds.
pub record Options : Type 0 where
  pub interval : ℤ
  pub probes_per_hop : ℤ
  pub max_ttl : ℤ

abbrev default_max_ttl : ℤ
default_max_ttl = pos 64

abbrev default_probes_per_hop : ℤ
default_probes_per_hop = pos 3

abbrev default_interval : ℤ
default_interval = pos 1000000000

abbrev no_interval : ℤ
no_interval = negsuc 0

-- Zero asks for the default, and only `no_interval` for none.
unfoldable pub interval_of : Option Options → ℤ
interval_of none = default_interval
interval_of (some o) =
    if eqb_ℤ o.interval (pos 0)
    then default_interval
    else if eqb_ℤ o.interval no_interval
    then pos 0
    else o.interval

unfoldable pub probes_per_hop_of : Option Options → ℤ
probes_per_hop_of none = default_probes_per_hop
probes_per_hop_of (some o) =
    if eqb_ℤ o.probes_per_hop (pos 0) then default_probes_per_hop else o.probes_per_hop

unfoldable pub max_ttl_of : Option Options → ℤ
max_ttl_of none = default_max_ttl
max_ttl_of (some o) = if eqb_ℤ o.max_ttl (pos 0) then default_max_ttl else o.max_ttl

pub record Step : Type 0 where
  pub pos_in_path : ℕ
  pub host : Addr

-- What `ReadFrom` returns: a packet and its sender, or an error.
pub data Read : Type 0 where
  got : Packet → Addr → Read
  failed : Error → Read

-- What a probe meets: whether it could be written, and what is read within its second.
pub record Probe : Type 0 where
  pub written : Bool
  pub reads : List Read

-- The packets that `readSeq` skips.
abbrev pub is_foreign : ℤ → Packet → Bool
is_foreign seq p = not (eqb_ℤ p.seq seq) || (p.packet_type == packet_request)

-- The context ends the loop with a timeout when nothing else does.
unfoldable pub read_seq : List Read → ℤ → Error ⊎ (Packet × Addr)
read_seq [] seq = inl timeout
read_seq (failed e ∷ reads) seq = inl e
read_seq (got p peer ∷ reads) seq =
    let rest = read_seq reads seq in if is_foreign seq p then rest else inr (p, peer)

abbrev pub is_timeout : Error → Bool
is_timeout timeout = true
is_timeout _ = false

-- The keys "ttl:peer" of the map `seen`.
abbrev pub Key : Type 0
Key = ℕ × Bytes

abbrev pub eqb_bytes : Bytes → Bytes → Bool
eqb_bytes [] [] = true
eqb_bytes [] (y ∷ ys) = false
eqb_bytes (x ∷ xs) [] = false
eqb_bytes (x ∷ xs) (y ∷ ys) = (x == y) && eqb_bytes xs ys

unfoldable pub same_key : Key → Key → Bool
same_key (i, p) (j, q) = (i == j) && eqb_bytes p q

unfoldable pub was_seen : Key → List Key → Bool
was_seen k [] = false
was_seen k (x ∷ xs) = same_key k x || was_seen k xs

-- `steps` and `ports` have the latest first: the steps sent on the channel, and the port that each
-- probe goes to on a connection that maps sequence numbers to ports.
pub record Trace : Type 0 where
  pub seen : List Key
  pub steps : List Step
  pub n_probes : ℕ
  pub base_port : ℕ
  pub next_base_port : ℕ
  pub ports : List ℕ

-- How a probe or a round of probes ends: on to the next hop, at the destination, with an error.
pub data Hop : Type 0 where
  passed : Hop
  arrived : Hop
  gave_up : Error → Hop

-- The network answers by how many probes were sent before, and by the time to live. A PortConn is a
-- connection whose sequence numbers are ports. Addresses are printed by package net.
module _ (ask : ℕ → ℕ → Probe) (addr_string : Addr → Bytes) (port_conn : Bool) where
  abbrev pub key : Step → Key
  key st = (st.pos_in_path, addr_string st.host)

  unfoldable pub add_step : Trace → Step → Trace
  unfolding was_seen
  add_step t st =
      if was_seen (key st) t.seen
      then t
      else record t { seen = key st ∷ t.seen; steps = st ∷ t.steps }

  -- What follows `readSeq` in the loop.
  unfoldable pub receive : Trace → ℕ → Error ⊎ (Packet × Addr) → Trace × Hop
  unfolding add_step
  receive t ttl (inr (p, peer)) =
      if p.packet_type == packet_destination_unreachable then (t, gave_up unreachable) else (
        add_step t (record { pos_in_path = ttl; host = peer }),
        if p.packet_type == packet_reply then arrived else passed,
      )
  receive t ttl (inl e) = if is_timeout e then (t, passed) else (t, gave_up e)

  abbrev pub sent : Trace → ℕ → Trace
  sent t ttl = record t {
    n_probes = t.n_probes + 1;
    next_base_port = t.next_base_port + 1;
    ports = (t.base_port + (ttl - 1)) ∷ t.ports;
  }

  -- One round of the inner loop.
  unfoldable pub probe : Trace → ℕ → Trace × Hop
  unfolding receive read_seq
  probe t ttl =
      let p = ask t.n_probes ttl in
      if p.written
      then receive (sent t ttl) ttl (read_seq p.reads (pos (ttl - 1)))
      else (sent t ttl, gave_up write_failed)

  -- The loops go on after a hop that was passed, and after a try that arrived.
  abbrev pub after_probe : Trace × Hop → (Trace → Trace × Hop) → Trace × Hop
  after_probe (t, passed) next = next t
  after_probe (t, arrived) next = (t, arrived)
  after_probe (t, gave_up e) next = (t, gave_up e)

  -- The inner loop, with the number of hops that are left before the limit.
  unfoldable pub hops : ℕ → ℕ → Trace → Trace × Hop
  unfolding probe
  hops zero ttl t = (t, passed)
  hops (suc left) ttl t = after_probe (probe t ttl) (hops left (ttl + 1))

  abbrev pub advance : Trace → Trace
  advance t = if port_conn then record t { base_port = t.next_base_port } else t

  abbrev pub after_try : Trace × Hop → (Trace → Trace × Option Error) → Trace × Option Error
  after_try (t, passed) next = (advance t, some max_ttl)
  after_try (t, arrived) next = next (advance t)
  after_try (t, gave_up e) next = (t, some e)

  -- The outer loop; `limit` is the number of hops below the maximum.
  unfoldable pub tries : ℕ → ℕ → Trace → Trace × Option Error
  unfolding hops
  tries zero limit t = (t, none)
  tries (suc left) limit t = after_try (hops limit 1 t) (tries left limit)

  abbrev pub start : ℕ → Trace
  start base_port = record {
    seen = [];
    steps = [];
    n_probes = 0;
    base_port = base_port;
    next_base_port = if port_conn then base_port else 0;
    ports = [];
  }

  -- After the connection was made.
  unfoldable pub trace_route : Option Options → ℕ → Trace × Option Error
  unfolding tries
  trace_route opts base_port =
      tries (pos_part (probes_per_hop_of opts)) (pos_part (max_ttl_of opts -ℤ pos 1))
        (start base_port)
