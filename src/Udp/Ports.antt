-- ===== src/Udp/Ports.antt =====
-- The way of a probe's sequence number through its port and back.
use vasily.Base.{
  ℕ, ◌==◌, true, false, List, [], ◌∷◌, ◌++◌, drop, if-eq, Result, ok, err, panic, ◌>>=◌,
  ok-injective, ◌≡◌, inl, inr, refl, sym, ap, ◌∙◌, arith,
}
use mathlib.Core.Path.{subst}
use vasily.Base.Int.{ℤ, pos, negsuc, ◌+ℤ◌, ◌-ℤ◌}
use vasily.Backend.{Addr, Bytes, Packet, WriteOption, ttl_option, option_ttl}
use vasily.Sockets.{Socket, IsKernel, SentWith, restored, written-SentWith}
use vasily.Util.{icmp_proto_num}
use vasily.Udppkt.{UdpHeader, PseudoHeader, marshal, encode}
use vasily.Udppkt.Headers.{IsWords, marshal-parse_udp_header}
use vasily.Icmppkt.{Parsed, decode_udp}
use vasily.Udp.{UdpConn, with_option, write_options, write_to}

pub plus_minus : (b s : ℤ) → (b +ℤ s) -ℤ b ≡ s
unfolding ◌+ℤ◌ ◌-ℤ◌
plus_minus (pos b) (pos s) = ground arith
plus_minus (pos b) (negsuc s) = ground arith
plus_minus (negsuc b) (pos s) = ground arith
plus_minus (negsuc b) (negsuc s) = ground arith

module _ {W : Type 0} (sock : Socket W) (k : IsKernel sock)
    (settable : (n : ℤ) (w : W) → (sock.set_ttl n w).0 ≡ true) (buf : Bytes) (dest : Addr)
    (port : ℤ) where
  by_ttl :
      (orig : ℤ) (opts : List WriteOption) (n : ℤ) (w : W) (t : Result ℤ)
      → sock.ttl w ≡ ok orig
      → t ≡ ok orig
      → SentWith sock buf dest port
          (option_ttl n opts)
          ((write_options sock buf dest port opts ((sock.set_ttl n w).1)).0)
        × (sock.ttl ((write_options sock buf dest port opts ((sock.set_ttl n w).1)).1) ≡ ok n)
      → SentWith sock buf dest port
          (option_ttl n opts)
          ((with_option sock n t w (write_options sock buf dest port opts)).0)
        × (sock.ttl ((with_option sock n t w (write_options sock buf dest port opts)).1) ≡ ok orig)
  unfolding with_option
  by_ttl orig opts n w (ok o) h e a = (
    a.0,
    subst
        (λ o.
          sock.ttl
            ((sock.set_ttl o ((write_options sock buf dest port opts ((sock.set_ttl n w).1)).1)).1)
          ≡ ok orig)
        (sym (ok-injective e)) (restored sock k orig w _ h),
  )
  by_ttl orig opts n w (err x) h e a = cc
  by_ttl orig opts n w panic h e a = cc

  options-SentWith :
      (opts : List WriteOption) (orig : ℤ) (w : W)
      → sock.ttl w ≡ ok orig
      → SentWith sock buf dest port
          (option_ttl orig opts)
          ((write_options sock buf dest port opts w).0)
        × (sock.ttl ((write_options sock buf dest port opts w).1) ≡ ok orig)
  unfolding write_options option_ttl
  options-SentWith [] orig w h = written-SentWith sock k buf dest port orig w h
  options-SentWith (ttl_option n ∷ opts) orig w h = by_ttl orig opts n w (sock.ttl w) h h (
      options-SentWith opts n ((sock.set_ttl n w).1)
        (k.sets n w ((sock.set_ttl n w).1) (ap (λ b. (b, (sock.set_ttl n w).1)) (settable n w))))

drop_encode :
    (h : UdpHeader) (psh : PseudoHeader) (rest : Bytes) → drop 8 (marshal h psh ++ rest) ≡ rest
unfolding marshal encode
drop_encode h psh rest = refl

pub own_is_icmp : (ip_ver own : ℕ) → icmp_proto_num ip_ver ≡ ok own → (17 == own) ≡ false
own_is_icmp ip_ver own h = elim (if-eq (ip_ver == 4) _ _ h) [
  | inl (q, e) ↦ subst (λ o. (17 == o) ≡ false) (ok-injective e) refl
  | inr (q, e) ↦ elim (if-eq (ip_ver == 6) _ _ e) [
    | inl (q, e) ↦ subst (λ o. (17 == o) ≡ false) (ok-injective e) refl
    | inr (q, e) ↦ cc
  ]
]

-- What `decodeUDP` gives for a header that was marshalled.
abbrev pub decoded : UdpHeader → Bytes → Parsed
decoded h payload = record {
  packet = record { packet_type = 0; seq = pos h.dst_port; payload = payload };
  id = h.src_port;
  proto = 17;
}

pub decode_udp-marshal :
    (h : UdpHeader) (psh : PseudoHeader) (payload : Bytes)
    → IsWords h
    → decode_udp (marshal h psh ++ payload) ≡ ok (decoded h payload)
unfolding decode_udp
decode_udp-marshal h psh payload w =
    let (len, bytes, e) = marshal-parse_udp_header h psh payload w in
    ap (λ r. r >>= packet_of) e ∙ ap (λ b. ok (decoded h b)) (drop_encode h psh payload)
  where
    packet_of : UdpHeader → Result Parsed
    packet_of u = ok (decoded u (drop 8 (marshal h psh ++ payload)))

module _ {W : Type 0} (sock : Socket W) where
  -- A ping over UDP goes to the port of its sequence number; the socket is left with the time to
  -- live that it had, whatever the options are. If the time to live can be set, the packet is sent
  -- with the one of the last option.
  pub write_to-option_ttl :
      (c : UdpConn) (pkt : Packet) (dest : Addr) (opts : List WriteOption) (orig : ℤ) (w : W)
      → IsKernel sock
      → ((n : ℤ) (w : W) → (sock.set_ttl n w).0 ≡ true)
      → sock.ttl w ≡ ok orig
      → SentWith sock pkt.payload dest
          (c.base_port +ℤ pkt.seq)
          (option_ttl orig opts)
          ((write_to sock c pkt dest opts w).0)
        × (sock.ttl ((write_to sock c pkt dest opts w).1) ≡ ok orig)
  unfolding write_to
  write_to-option_ttl c pkt dest opts orig w k settable h =
      options-SentWith sock k settable pkt.payload dest (c.base_port +ℤ pkt.seq) opts orig w h
