-- ===== src/Icmppkt/Linux.antt =====
-- icmppkt_linux.go: `ParseLinuxEE`, over the parts of x/sys and of the kernel's headers that it uses.
use vasily.Base.{
  ℕ, List, [], ◌∷◌, Result, ok, err, guard, ◌>>◌, ◌>>=◌, bad_control, true, ◌≡◌, refl,
}
use vasily.Backend.{Addr, Bytes}
use vasily.Icmppkt.{SockExtendedErr, packet_type, is_recv_err_message}

-- `unix.SocketControlMessage`
pub record ControlMessage : Type 0 where
  pub level : ℕ
  pub typ : ℕ
  pub contents : Bytes

-- `unix.ParseSocketControlMessage`, `binary.Decode` of a `SockExtendedErr`, and `soEEOffender`,
-- which reads the address behind it through cgo.
pub record ControlParsers : Type 0 where
  pub parse_control : Bytes → Result (List ControlMessage)
  pub decode_ext_err : Bytes → Result SockExtendedErr
  pub offender : Bytes → Result Addr

-- The test on the number of messages.
abbrev pub only_message : List ControlMessage → Result ControlMessage
only_message (scm ∷ []) = ok scm
only_message [] = err bad_control
only_message (scm ∷ other ∷ scms) = err bad_control

unfoldable pub parse_linux_ee : ControlParsers → Bytes → Result (ℕ × Addr)
unfolding packet_type
parse_linux_ee cs oob = do
  scms ← cs.parse_control oob
  scm ← only_message scms
  guard (is_recv_err_message scm.level scm.typ) bad_control
  ext_err ← cs.decode_ext_err scm.contents
  pkt_type ← packet_type ext_err
  peer ← cs.offender scm.contents
  ok (pkt_type, peer)

-- The control data of an error that came as an ICMP message: one message of the error queue, of
-- either IP version, with this extended error and this address.
pub record IsErrorData (cs : ControlParsers) (oob : Bytes) (e : SockExtendedErr) (peer : Addr)
    : Type 0 where
  pub scm : ControlMessage
  pub one : cs.parse_control oob ≡ ok (scm ∷ [])
  pub queued : is_recv_err_message scm.level scm.typ ≡ true
  pub decoded : cs.decode_ext_err scm.contents ≡ ok e
  pub address : cs.offender scm.contents ≡ ok peer

pub parse_linux_ee-IsErrorData :
    (cs : ControlParsers) (oob : Bytes) (e : SockExtendedErr) (peer : Addr) (t : ℕ)
    → IsErrorData cs oob e peer
    → packet_type e ≡ ok t
    → parse_linux_ee cs oob ≡ ok (t, peer)
unfolding parse_linux_ee
parse_linux_ee-IsErrorData cs oob e peer t d h =
    simp (d.one, d.queued, d.decoded, d.address, h) refl
