-- ===== src/Serializer.antt =====
-- src/transaction/serialize.c. The email's pointers refer to `mem`; `out` is the output array.
pub mod Writes
pub mod Correct
pub mod Outcome
pub mod RoundTrip
use ledger_hardmail_app.Common.{
  ℕ, ◌+◌, ◌/◌, ◌%◌, ◌≡◌, Bool, true, false, List, [], ◌∷◌, ◌++◌, Option, none, some, ltb, leb, ◌==◌,
  if◌then◌else◌, length, slice, write_at, ℤ, pos, negsuc,
}
use ledger_hardmail_app.Sdk.Buffers.{Bytes}
use ledger_hardmail_app.Email.{Ptr, null, at, Email, challenge_len, att_hash_len}

-- The output array and the local `offset`.
pub record Writer : Type 0 where
  pub out : Bytes
  pub offset : ℕ

-- A step over the output; `none` is a read outside of the memory.
abbrev pub W : Type 0
W = Writer → Option Writer

infixl 5 ◌>>◌
abbrev pub ◌>>◌ : W → W → W
◌>>◌ m k w = elim (m w) [ none ↦ none | some w' ↦ k w' ]

abbrev pub append : Bytes → W
append bs w = some (record { out = write_at w.out w.offset bs; offset = w.offset + length bs })

-- `out[offset++] = (uint8_t) v`
abbrev pub put_u8 : ℕ → W
put_u8 v = append ((v % 256) ∷ [])

-- `memmove(out + offset, p, n); offset += n`
abbrev pub put_mem : Bytes → Ptr → ℕ → W
put_mem mem null n w = none
put_mem mem (at p) n w = if leb (p + n) (length mem) then append (slice mem p n) w else none

unfoldable pub put_head : Bytes → Email → W
put_head mem tx =
    put_mem mem tx.challenge challenge_len
    >> put_u8 tx.from_len
    >> put_mem mem tx.from tx.from_len
    >> put_u8 tx.to_len
    >> put_mem mem tx.to tx.to_len
    >> put_u8 tx.subject_len
    >> put_mem mem tx.subject tx.subject_len
    >> put_u8 (tx.body_len / 256)
    >> put_u8 (tx.body_len % 256)
    >> put_mem mem tx.body tx.body_len

unfoldable pub put_attached : Bytes → Email → W
put_attached mem tx =
    put_u8 1
    >> put_u8 tx.att_name_len
    >> put_mem mem tx.att_name tx.att_name_len
    >> put_u8 (tx.att_size / 256 / 256 / 256)
    >> put_u8 (tx.att_size / 256 / 256)
    >> put_u8 (tx.att_size / 256)
    >> put_u8 tx.att_size
    >> put_mem mem tx.att_hash att_hash_len

-- `need`, which is below 2 ^ 32 for fields of the declared widths.
abbrev pub need : Email → ℕ
need tx = challenge_len + 1 + tx.from_len + 1 + tx.to_len + 1 + tx.subject_len + 2 + tx.body_len

abbrev pub finish : Writer → ℤ × Bytes
finish w = (pos w.offset, w.out)

-- What follows the body: the attachment, or a zero byte.
unfoldable pub put_tail : Bytes → Email → ℕ → Writer → Option (ℤ × Bytes)
put_tail mem tx out_len w =
    if tx.has_attachment == 0
    then if ltb out_len (w.offset + 1)
      then some (negsuc 0, w.out)
      else elim (put_u8 0 w) [ none ↦ none | some w' ↦ some (finish w') ]
    else if ltb out_len (w.offset + 1 + 1 + tx.att_name_len + 4 + att_hash_len)
    then some (negsuc 0, w.out)
    else elim (put_attached mem tx w) [ none ↦ none | some w' ↦ some (finish w') ]

-- `transaction_serialize (tx, out, out_len)`: its result, and the array afterwards.
unfoldable pub transaction_serialize : Bytes → Email → Bytes → ℕ → Option (ℤ × Bytes)
transaction_serialize mem tx out out_len =
    if ltb out_len (need tx)
    then some (negsuc 0, out)
    else elim (put_head mem tx (record { out = out; offset = 0 })) [
      | none ↦ none
      | some w ↦ put_tail mem tx out_len w
    ]
