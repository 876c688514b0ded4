-- ===== src/Tracer/Reads.antt =====
-- internal/tracer/tracer.go: `readSeq`.
use vasily.Base.{
  true, false, List, [], ◌∷◌, ◌++◌, ◌≡◌, ◌⊎◌, inl, inr, sym, ap, ◌∙◌, All, Error, if-eq,
}
use vasily.Base.Int.{ℤ}
use vasily.Backend.{Addr, Packet}
use vasily.Tracer.{Read, got, failed, read_seq, is_foreign}

-- A read that `readSeq` passes over.
abbrev pub IsForeign : ℤ → Read → Type 0
IsForeign seq (got p peer) = is_foreign seq p ≡ true
IsForeign seq (failed e) = ⊥

abbrev packet_of : Error ⊎ (Packet × Addr) → Packet → Packet
packet_of (inl e) p = p
packet_of (inr (p, a)) q = p

-- Where `readSeq` returns a packet, it was read, it is no request and has the sequence number that
-- was asked for, and every read before it was a packet that is a request or has another number.
pub read_seq_first :
    (reads : List Read) (seq : ℤ) (p : Packet) (peer : Addr)
    → read_seq reads seq ≡ inr (p, peer)
    → (is_foreign seq p ≡ false)
      × ((before : List Read) × (after : List Read) × All (IsForeign seq) before
          × (reads ≡ before ++ (got p peer ∷ after)))
unfolding read_seq
read_seq_first [] seq p peer h = cc
read_seq_first (failed e ∷ reads) seq p peer h = cc
read_seq_first (got q a ∷ reads) seq p peer h = elim (if-eq (is_foreign seq q) _ _ h) [
  | inl (f, e) ↦
      let (mine, (before, after, all, s)) = read_seq_first reads seq p peer e in
      (mine, (got q a ∷ before, after, (f, all), ap (λ x. got q a ∷ x) s))
  | inr (f, e) ↦ (ap (is_foreign seq) (sym (ap (λ x. packet_of x p) e)) ∙ f, ([], reads, tt, cc))
]
