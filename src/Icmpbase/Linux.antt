-- ===== src/Icmpbase/Linux.antt =====
-- service_linux.go: a service of its own for each connection.
use vasily.Base.{
  ℕ, ◌==◌, Option, none, some, List, [], ◌∷◌, All, if◌then◌else◌, Result, ok, panic, ◌>>=◌,
  ok-injective, ◌≡◌, sym, ap, ◌∙◌,
}
use mathlib.Core.Path.{subst}
use vasily.Backend.{Addr, Packet}
use vasily.Icmpbase.{ListenerKey, ReadResult}

-- The channel of the reader: nil, open or closed.
pub data Receiver : Type 0 where
  absent opened shut : Receiver

-- `echo_id` is of the `conn`, which nothing sets on Linux. A send that is not received yet holds
-- the mutex; a send on a nil channel never ends.
pub record LinuxService : Type 0 where
  pub echo_id : ℕ
  pub receiver : Receiver
  pub sending : Option ReadResult
  pub received : List ReadResult

abbrev pub linux_service : LinuxService
linux_service = record { echo_id = 0; receiver = absent; sending = none; received = [] }

unfoldable pub register_reader : LinuxService → ℕ → Receiver → Result LinuxService
register_reader s id absent = if id == 0 then ok (record s { receiver = opened }) else panic
register_reader s id opened = panic
register_reader s id shut = panic

-- `close` of a nil or of a closed channel panics.
unfoldable pub unregister_reader : LinuxService → Receiver → Result LinuxService
unregister_reader s absent = panic
unregister_reader s opened = ok (record s { receiver = shut })
unregister_reader s shut = panic

unfoldable pub send_to_receiver : LinuxService → ReadResult → Receiver → Result LinuxService
send_to_receiver s r absent = ok (record s { sending = some r })
send_to_receiver s r opened = ok (record s { sending = some r })
send_to_receiver s r shut = panic

-- `Conn.ReadFrom`, which gets nothing from a nil or a closed channel.
unfoldable pub receive : LinuxService → Receiver → Option ReadResult → LinuxService
receive s opened (some r) = record s { sending = none; received = r ∷ s.received }
receive s opened none = s
receive s absent d = s
receive s shut d = s

pub data Event : Type 0 where
  registers : ℕ → Event
  arrives : Packet → Addr → ListenerKey → Event
  reads closes : Event

abbrev pub unless_locked :
    LinuxService → Option ReadResult → Result LinuxService → Result LinuxService
unless_locked s none next = next
unless_locked s (some r) next = ok s

-- The goroutine of `readLoop` goes on after `Close`, since nothing closes the socket.
unfoldable pub step : LinuxService → Event → Result LinuxService
unfolding register_reader unregister_reader send_to_receiver receive
step s (registers id) = unless_locked s s.sending (register_reader s id s.receiver)
step s (arrives pkt peer key) =
    unless_locked s s.sending
      (send_to_receiver s (record { packet = pkt; peer = peer; id = key.id }) s.receiver)
step s reads = ok (receive s s.receiver s.sending)
step s closes = unless_locked s s.sending (unregister_reader s s.receiver)

unfoldable pub run : LinuxService → List Event → Result LinuxService
unfolding step
run s [] = ok s
run s (e ∷ es) = do s ← step s e; run s es

abbrev pub IsRead : Event → Type 0
IsRead reads = Unit {0}
IsRead (registers id) = ⊥
IsRead (arrives pkt peer key) = ⊥
IsRead closes = ⊥

-- Closed, and nothing in a send.
abbrev pub closed : LinuxService → LinuxService
closed s = record s { receiver = shut; sending = none }

only_reads : (s s' : LinuxService) (es : List Event) → run (closed s) es ≡ ok s' → All IsRead es
unfolding run
only_reads s s' [] h = tt
only_reads s s' (reads ∷ es) h = (tt, only_reads s s' es h)
only_reads s s' (registers id ∷ es) h = cc
only_reads s s' (arrives pkt peer key ∷ es) h = cc
only_reads s s' (closes ∷ es) h = cc

unregister_reader-eq :
    (s b : LinuxService) (r : Receiver)
    → unregister_reader s r ≡ ok b
    → b ≡ record s { receiver = shut }
unfolding unregister_reader
unregister_reader-eq s b absent h = cc
unregister_reader-eq s b opened h = sym (ok-injective h)
unregister_reader-eq s b shut h = cc

-- On Linux a connection that has been closed is a danger to the process: once its readers are done
-- and `Close` has run, any packet that still arrives for it makes a send on a closed channel. In
-- every run from there that does not panic, there is nothing but reads.
pub close-IsRead :
    (s b s' : LinuxService) (es : List Event)
    → s.sending ≡ none
    → step s closes ≡ ok b
    → run b es ≡ ok s'
    → All IsRead es
unfolding step
close-IsRead s b s' es d c h =
    let q =
      unregister_reader-eq s b s.receiver
        (subst (λ d. unless_locked s d (unregister_reader s s.receiver) ≡ ok b) d c) in
    let e : b ≡ closed s = q ∙ ap (λ d. record s { receiver = shut; sending = d }) d in
    only_reads s s' es (subst (λ b. run b es ≡ ok s') e h)
