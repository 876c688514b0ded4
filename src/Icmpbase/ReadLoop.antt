-- ===== src/Icmpbase/ReadLoop.antt =====
-- `readLoop`, which service_normal.go and service_linux.go write alike: each message goes to a
-- goroutine that delivers it, until a read fails.
use vasily.Base.{
  ℕ, suc, some, List, [], ◌∷◌, ◌++◌, Error, Result, ok, err, panic, ◌>>=◌, unhandled_type, ◌≡◌,
  refl, ap, ◌∙◌,
}
use vasily.Backend.{Addr, Bytes}
use vasily.Util.{icmp_proto_num}
use vasily.Icmppkt.{IcmpMessage, Parsers, unhandled, handling, handle_type, parse}
use vasily.Icmppkt.Reporting.{lift-eq_ok}
use vasily.Icmpbase.Reading.{received, Message, message_of, and_then, read_normal}

-- What is handed on of what the reads give.
unfoldable pub read_loop : List (Result Message) → Result (List Message)
read_loop [] = ok []
read_loop (ok m ∷ reads) = do ms ← read_loop reads; ok (m ∷ ms)
read_loop (err e ∷ reads) = ok []
read_loop (panic ∷ reads) = panic

read_loop-stop :
    (front back : List (Result Message)) (e : Error)
    → read_loop (front ++ (err e ∷ back)) ≡ read_loop front
unfolding read_loop
read_loop-stop [] back e = refl
read_loop-stop (ok m ∷ front) back e =
    ap (λ r. r >>= λ ms. ok (m ∷ ms)) (read_loop-stop front back e)
read_loop-stop (err x ∷ front) back e = refl
read_loop-stop (panic ∷ front) back e = refl

parse_unhandled :
    (ps : Parsers) (n ip_ver own : ℕ) (buf : Bytes) (m : IcmpMessage)
    → icmp_proto_num ip_ver ≡ ok own
    → ps.parse_message own buf ≡ ok m
    → handling m.icmp_type ≡ unhandled
    → parse ps (suc n) ip_ver buf ≡ some (err unhandled_type)
unfolding parse handle_type
parse_unhandled ps n ip_ver own buf m o r h =
    lift-eq_ok (icmp_proto_num ip_ver) own _ o
    ∙ lift-eq_ok (ps.parse_message own buf) m _ r
    ∙ ap (handle_type ps (parse ps n ip_ver) ip_ver m) h

-- The first ICMP message of a type that `Parse` does not handle ends the loop: the read fails, and
-- of all that the socket receives after it, for whichever connection, nothing is handed on.
pub read_loop_unhandled :
    (ps : Parsers) (n ip_ver own : ℕ) (buf : Bytes) (peer : Addr) (m : IcmpMessage)
    (front back : List (Result Message))
    → icmp_proto_num ip_ver ≡ ok own
    → ps.parse_message own buf ≡ ok m
    → handling m.icmp_type ≡ unhandled
    → (read_normal ps (suc n) ip_ver (received buf peer) ≡ some (err unhandled_type))
      × (read_loop (front ++ (err unhandled_type ∷ back)) ≡ read_loop front)
unfolding read_normal
read_loop_unhandled ps n ip_ver own buf peer m front back o r h = (
  ap (λ z. and_then z (λ p. some (ok (message_of peer p))))
      (parse_unhandled ps n ip_ver own buf m o r h),
  read_loop-stop front back unhandled_type,
)
