-- ===== src/Messages/Streams.antt =====
-- `readRawMessage` on any stream: what it takes, and what a cut stream gives.
use vasily.Base.{
  ℕ, zero, suc, ◌<◌, ◌≡◌, refl, sym, ap, ap₂, ◌∙◌, ◌⊎◌, inl, inr, List, [], ◌∷◌, ◌++◌, append_assoc,
  append-nil, length, length-append, All, arith, ok, err, eof,
}
use vasily.Backend.{Bytes}
use vasily.Messages.Raw.{RawMessage, read_arg, read_args, read_raw_message, marshal_raw}
use mathlib.Core.Path.{subst}
use vasily.Messages.Framing.{IsShort, framed_args, frame, marshal_raw-frame, read_raw_message-frame}

abbrev pub IsByte : ℕ → Type 0
IsByte b = b < 256

read_arg_cases :
    (n : ℕ) (r : Bytes)
    → ((arg : Bytes) × (rest : Bytes) × (read_arg n r ≡ ok (arg, rest))
        × (r ≡ arg ++ rest)
        × (length arg ≡ n))
      ⊎ (read_arg n r ≡ err eof)
unfolding read_arg
read_arg_cases zero r = inl ([], r, refl, refl, refl)
read_arg_cases (suc n) [] = inr refl
read_arg_cases (suc n) (b ∷ r) = elim (read_arg_cases n r) [
  | inl (arg, rest, e, s, l) ↦ inl (b ∷ arg, rest, rw e, ap (λ t. b ∷ t) s, ap suc l)
  | inr e ↦ inr (rw e)
]

read_args_cases :
    (n : ℕ) (r : Bytes)
    → ((args : List Bytes) × (rest : Bytes) × (read_args n r ≡ ok (args, rest))
        × (r ≡ framed_args args ++ rest)
        × (length args ≡ n))
      ⊎ (read_args n r ≡ err eof)
unfolding read_args
read_args_cases zero r = inl ([], r, refl, refl, refl)
read_args_cases (suc n) [] = inr refl
read_args_cases (suc n) (b ∷ r) = elim (read_arg_cases b r) [
  | inl (arg, mid, e, s, l) ↦ elim (read_args_cases n mid) [
    | inl (args, rest, e', s', l') ↦ inl (
      arg ∷ args,
      rest,
      rw (e, e'),
      ap₂ ◌∷◌ (sym l) (s ∙ ap (◌++◌ arg) s' ∙ sym (append_assoc arg (framed_args args) rest)),
      ap suc l',
    )
    | inr e' ↦ inr (rw (e, e'))
  ]
  | inr e ↦ inr (rw e)
]

-- On every stream `readRawMessage` either takes exactly one frame off the front or reports EOF.
pub read_raw_message_cases :
    (r : Bytes)
    → ((m : RawMessage) × (rest : Bytes) × (read_raw_message r ≡ ok (m, rest))
        × (r ≡ frame m ++ rest))
      ⊎ (read_raw_message r ≡ err eof)
unfolding read_raw_message
read_raw_message_cases [] = inr refl
read_raw_message_cases (t ∷ []) = inr refl
read_raw_message_cases (t ∷ n ∷ r) = elim (read_args_cases n r) [
  | inl (args, rest, e, s, l) ↦
      inl (record { type_code = t; args = args }, rest, rw e, ap (λ x. t ∷ x) (ap₂ ◌∷◌ (sym l) s))
  | inr e ↦ inr (rw e)
]

All-IsByte-append : (xs ys : Bytes) → All IsByte (xs ++ ys) → All IsByte ys
All-IsByte-append [] ys h = h
All-IsByte-append (x ∷ xs) ys h = All-IsByte-append xs ys h.1

framed_args-IsShort :
    (args : List Bytes) (rest : Bytes) → All IsByte (framed_args args ++ rest) → All IsShort args
framed_args-IsShort [] rest h = tt
framed_args-IsShort (arg ∷ args) rest h = (
  omega arith,
  framed_args-IsShort args rest
      (All-IsByte-append arg _ (rw (append_assoc arg (framed_args args) rest) at h.1)),
)

-- On a stream of bytes, what `readRawMessage` accepts is what `WriteTo` would have written for the
-- message that it returns: the format has one encoding for each raw message.
pub marshal_raw-read_raw_message :
    (r : Bytes) (m : RawMessage) (rest : Bytes)
    → All IsByte r
    → read_raw_message r ≡ ok (m, rest)
    → (b : Bytes) × (marshal_raw m ≡ ok b) × (r ≡ b ++ rest)
marshal_raw-read_raw_message r m rest bytes h = elim (read_raw_message_cases r) [
  | inl (m', rest', e, s) ↦
      let same : m' ≡ m = cc in
      let left : rest' ≡ rest = cc in
      let s' : r ≡ frame m ++ rest = cc in
      let all : All IsByte (frame m ++ rest) = subst (All IsByte) s' bytes in
      (frame m, marshal_raw-frame m (omega arith, framed_args-IsShort m.args rest all.1.1), s')
  | inr e ↦ cc
]

-- A message that is cut short is reported as EOF, wherever the cut is.
pub read_raw_message_truncated :
    (m : RawMessage) (front back : Bytes) (x : ℕ)
    → frame m ≡ front ++ (x ∷ back)
    → read_raw_message front ≡ err eof
read_raw_message_truncated m front back x h = elim (read_raw_message_cases front) [
  | inl (m', rest, e, s) ↦ absurd (impossible m' rest s)
  | inr e ↦ e
]
  where
    impossible : (m' : RawMessage) (rest : Bytes) → front ≡ frame m' ++ rest → ⊥
    impossible m' rest s =
        let whole = rw append-nil at (read_raw_message-frame m []) in
        let other = read_raw_message-frame m' (rest ++ (x ∷ back)) in
        let split : frame m ≡ frame m' ++ (rest ++ (x ∷ back)) =
          h ∙ ap (λ t. t ++ (x ∷ back)) s ∙ append_assoc (frame m') rest (x ∷ back) in
        let none_left : [] ≡ rest ++ (x ∷ back) = cc in
        omega (arith, ap length none_left, length-append rest (x ∷ back))
