-- ===== src/Messages/Framing.antt =====
-- The frame of a message: what `RawMessage.WriteTo` writes and `readRawMessage` reads back.
use vasily.Base.{
  ◌+◌, ◌*◌, ◌≤◌, ◌≡◌, refl, ap, List, [], ◌∷◌, ◌++◌, append_assoc, append-nil, length,
  length-append, All, arith, ok, err, arg_too_long,
}
use native.Mathlib.Decide.{dec_lt}
use vasily.Backend.{Bytes}
use vasily.Messages.Raw.{
  RawMessage, read_arg, read_args, read_raw_message, append_args, marshal_raw,
}

abbrev pub IsShort : Bytes → Type 0
IsShort arg = length arg ≤ 255

-- What a frame can hold: at most 255 arguments of at most 255 bytes.
abbrev pub IsFramed : RawMessage → Type 0
IsFramed m = (length m.args ≤ 255) × All IsShort m.args

-- The arguments on the wire.
abbrev pub framed_args : List Bytes → Bytes
framed_args [] = []
framed_args (arg ∷ args) = length arg ∷ (arg ++ framed_args args)

-- The documented format: type, count, arguments.
abbrev pub frame : RawMessage → Bytes
frame m = m.type_code ∷ length m.args ∷ framed_args m.args

append_args-framed_args :
    (buf : Bytes) (args : List Bytes)
    → All IsShort args
    → append_args buf args ≡ ok (buf ++ framed_args args)
unfolding append_args
append_args-framed_args buf [] h = rw append-nil
append_args-framed_args buf (arg ∷ args) h = ground (
  arith,
  append_args-framed_args (buf ++ (length arg ∷ arg)) args h.1,
  append_assoc buf (length arg ∷ arg) (framed_args args),
)

-- A message that fits is written in the documented format.
pub marshal_raw-frame : (m : RawMessage) → IsFramed m → marshal_raw m ≡ ok (frame m)
unfolding marshal_raw
marshal_raw-frame m h =
    ground (arith, append_args-framed_args (m.type_code ∷ length m.args ∷ []) m.args h.1)

append_args-IsShort :
    (buf : Bytes) (args : List Bytes) (b : Bytes) → append_args buf args ≡ ok b → All IsShort args
unfolding append_args
append_args-IsShort buf [] b h = tt
append_args-IsShort buf (arg ∷ args) b h =
    ground (arith, append_args-IsShort (buf ++ (length arg ∷ arg)) args b)

-- Nothing else is written: the size checks are exact.
pub marshal_raw-IsFramed : (m : RawMessage) (b : Bytes) → marshal_raw m ≡ ok b → IsFramed m
unfolding marshal_raw
marshal_raw-IsFramed m b h =
    ground (arith, append_args-IsShort (m.type_code ∷ length m.args ∷ []) m.args b)

append_args_long :
    (buf : Bytes) (args : List Bytes) → ¬ All IsShort args → append_args buf args ≡ err arg_too_long
unfolding append_args
append_args_long buf [] h = absurd (h tt)
append_args_long buf (arg ∷ args) h = elim (dec_lt 255 (length arg)) [
  | yes long ↦ ground arith
  | no short ↦
      ground (arith, append_args_long (buf ++ (length arg ∷ arg)) args (λ t. h (omega arith, t)))
]

-- A message with an argument that does not fit is refused.
pub marshal_raw_long :
    (m : RawMessage) → length m.args ≤ 255 → ¬ All IsShort m.args → marshal_raw m ≡ err arg_too_long
unfolding marshal_raw
marshal_raw_long m n h =
    ground (arith, append_args_long (m.type_code ∷ length m.args ∷ []) m.args h)

length-framed_args :
    (args : List Bytes) → All IsShort args → length (framed_args args) ≤ 256 * length args
length-framed_args [] h = omega arith
length-framed_args (arg ∷ args) h =
    omega (arith, length-append arg (framed_args args), length-framed_args args h.1)

-- `WriteTo` either hands over a buffer of at most `maxMessageLen` bytes in the documented format,
-- for a message that fits the frame, or fails on one that does not fit.
pub marshal_raw-len :
    (m : RawMessage) (b : Bytes)
    → marshal_raw m ≡ ok b
    → IsFramed m × (b ≡ frame m) × (length b ≤ 2 + 255 * (1 + 255))
marshal_raw-len m b h =
    let fits : IsFramed m = marshal_raw-IsFramed m b h in
    let e : b ≡ frame m = cc (marshal_raw-frame m fits) in
    (fits, e, omega (arith, ap length e, length-framed_args m.args fits.1))

read_arg-append : (arg rest : Bytes) → read_arg (length arg) (arg ++ rest) ≡ ok (arg, rest)
unfolding read_arg
read_arg-append [] rest = refl
read_arg-append (b ∷ arg) rest = rw (read_arg-append arg rest)

read_args-framed_args :
    (args : List Bytes) (rest : Bytes)
    → read_args (length args) (framed_args args ++ rest) ≡ ok (args, rest)
unfolding read_args
read_args-framed_args [] rest = refl
read_args-framed_args (arg ∷ args) rest =
    rw (
      append_assoc,
      read_arg-append arg (framed_args args ++ rest),
      read_args-framed_args args rest,
    )

-- Reading back a frame gives the message and leaves what follows.
pub read_raw_message-frame :
    (m : RawMessage) (rest : Bytes) → read_raw_message (frame m ++ rest) ≡ ok (m, rest)
unfolding read_raw_message
read_raw_message-frame m rest = rw (read_args-framed_args m.args rest)
