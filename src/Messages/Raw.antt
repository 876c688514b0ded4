-- ===== src/Messages/Raw.antt =====
-- Raw messages: a type byte, a count byte, and arguments with a length byte each.
use vasily.Base.{
  ℕ, zero, suc, List, [], ◌∷◌, ◌++◌, length, ltb, if◌then◌else◌, Result, ok, err, eof,
  too_many_args, arg_too_long, ◌>>=◌,
}
use vasily.Backend.{Bytes}

pub record RawMessage : Type 0 where
  pub type_code : ℕ
  pub args : List Bytes

-- A reader is the bytes that are still to come; `io.EOF` at their end.
unfoldable pub read_byte : Bytes → Result (ℕ × Bytes)
read_byte [] = err eof
read_byte (b ∷ rest) = ok (b, rest)

-- The inner loop: `n` bytes of one argument.
unfoldable pub read_arg : ℕ → Bytes → Result (Bytes × Bytes)
unfolding read_byte
read_arg zero r = ok ([], r)
read_arg (suc n) r = do (b, r) ← read_byte r; (arg, r) ← read_arg n r; ok (b ∷ arg, r)

-- The outer loop: `n` arguments.
unfoldable pub read_args : ℕ → Bytes → Result (List Bytes × Bytes)
unfolding read_byte read_arg
read_args zero r = ok ([], r)
read_args (suc n) r = do
  (arg_len, r) ← read_byte r
  (arg, r) ← read_arg arg_len r
  (args, r) ← read_args n r
  ok (arg ∷ args, r)

unfoldable pub read_raw_message : Bytes → Result (RawMessage × Bytes)
unfolding read_byte read_args
read_raw_message r = do
  (b, r) ← read_byte r
  (num_args, r) ← read_byte r
  (args, r) ← read_args num_args r
  ok (record { type_code = b; args = args }, r)

-- The loop of `WriteTo` over the arguments, after what is in the buffer.
unfoldable pub append_args : Bytes → List Bytes → Result Bytes
append_args buf [] = ok buf
append_args buf (arg ∷ args) =
    let rest = append_args (buf ++ (length arg ∷ arg)) args in
    if ltb 255 (length arg) then err arg_too_long else rest

-- The buffer that `RawMessage.WriteTo` hands to its one call of `Write`.
unfoldable pub marshal_raw : RawMessage → Result Bytes
unfolding append_args
marshal_raw m =
    if ltb 255 (length m.args)
    then err too_many_args
    else append_args (m.type_code ∷ length m.args ∷ []) m.args

-- `RawMessage.WriteTo` on a writer that takes the buffer and returns a count or an error.
unfoldable pub write_raw : (Bytes → Result ℕ) → RawMessage → Result ℕ
write_raw w m = do buf ← marshal_raw m; w buf
