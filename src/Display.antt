-- ===== src/Display.antt =====
-- src/ui/nbgl_display_transaction.c: the review of an email.
pub mod Strings
pub mod Numbers
pub mod Review
pub mod Injective
pub mod Encoded
use ledger_hardmail_app.Common.{
  ℕ, zero, suc, ◌+◌, ◌*◌, ◌-◌, ◌/◌, ◌%◌, ◌≡◌, Bool, true, false, not, ◌||◌, List, [], ◌∷◌, ◌++◌,
  Option, none, some, length, ltb, leb, ◌==◌, if◌then◌else◌, slice, write_at, take, ◌>>=◌,
}
use Prim.Native.String.{String}
use Prim.Native.Char.{code}
use ledger_hardmail_app.Sdk.Buffers.{Bytes}
use ledger_hardmail_app.Sdk.Crypto.{CryptoOps}
use ledger_hardmail_app.Email.{
  Ptr, null, at, Email, max_from_len, max_to_len, max_subject_len, max_body_len, max_att_name_len,
  challenge_len, att_hash_len,
}
use ledger_hardmail_app.Context.{
  Context, state_none, state_parsed, confirm_transaction, is_state, is_request, zero_bytes,
  swo_conditions_not_satisfied, swo_incorrect_data, Pair, Reply, review, send_sw,
}

-- The bytes of an ASCII literal.
abbrev pub codes : String → Bytes
codes String.[] = []
codes (String.◌∷◌ c s) = code c ∷ codes s

-- A C string ends at its first zero byte.
abbrev pub c_string : Bytes → Bytes
c_string [] = []
c_string (c ∷ cs) = if c == 0 then [] else c ∷ c_string cs

-- `memmove` from the payload; a read outside of it is a fault.
abbrev pub read_mem : Bytes → Ptr → ℕ → Option Bytes
read_mem mem null n = none
read_mem mem (at p) n = if leb (p + n) (length mem) then some (slice mem p n) else none

-- `copy_field`: the array of `dst_sz` bytes afterwards.
unfoldable pub copy_field : ℕ → Bytes → Ptr → ℕ → Option Bytes
copy_field dst_sz mem src len =
    let n = if ltb len (dst_sz - 1) then len else dst_sz - 1 in
    do bs ← read_mem mem src n; some (write_at (write_at (zero_bytes dst_sz) 0 bs) n (0 ∷ []))

-- `%u`, for a number of at most as many digits as the fuel.
unfoldable pub decimal : ℕ → ℕ → Bytes
decimal zero n = []
decimal (suc fuel) n =
    let front = decimal fuel (n / 10) in
    if ltb n 10 then (0x30 + n) ∷ [] else front ++ (0x30 + n % 10) ∷ []

-- `snprintf(g_attachment, size, "%s (%u bytes)", name, att_size)`, cut at the array's end.
unfoldable pub print_attachment : ℕ → Bytes → ℕ → Bytes
print_attachment size name att_size =
    take (size - 1) (c_string name ++ (codes " (" ++ (decimal 10 att_size ++ codes " bytes)")))

abbrev pub pair : String → Bytes → Pair
pair item value = record { item = codes item; value = value }

-- A failed `format_hex` ends the display with a status word.
pub data Shown : Type 0 where
  shown : List Pair → Shown
  refused : Shown

module _ (crypto : CryptoOps) where
  -- The pairs of the attachment, if there is one.
  unfoldable pub attachment_pairs : Bytes → Email → Option Shown
  attachment_pairs mem tx = if tx.has_attachment == 0 then some (shown []) else do
    name ← copy_field (max_att_name_len + 1) mem tx.att_name tx.att_name_len
    hash ← read_mem mem tx.att_hash att_hash_len
    some (elim (crypto.format_hex hash (2 * att_hash_len + 1)) [
      | none ↦ refused
      | some text ↦ shown (
          pair "Attachment" (print_attachment (max_att_name_len + 40) name tx.att_size)
          ∷ pair "Attachment SHA-256" text
          ∷ [])
    ])

  abbrev pub with_request : List Pair → Bytes → Shown → Shown
  with_request front request (shown pairs) =
      shown (front ++ (pairs ++ pair "Request ID" request ∷ []))
  with_request front request refused = refused

  -- The whole review, for an email whose pointers refer to `mem`.
  unfoldable pub email_pairs : Bytes → Email → Option Shown
  email_pairs mem tx = do
    from ← copy_field (max_from_len + 1) mem tx.from tx.from_len
    to ← copy_field (max_to_len + 1) mem tx.to tx.to_len
    subject ← copy_field (max_subject_len + 1) mem tx.subject tx.subject_len
    body ← copy_field (max_body_len + 1) mem tx.body tx.body_len
    challenge ← read_mem mem tx.challenge challenge_len
    elim (crypto.format_hex challenge (2 * challenge_len + 1)) [
      | none ↦ some refused
      | some request ↦ do
        tail ← attachment_pairs mem tx
        some (
            with_request
              (pair "From" (c_string from)
                ∷ pair "To" (c_string to)
                ∷ pair "Subject" (c_string subject)
                ∷ pair "Message" (c_string body)
                ∷ [])
              request tail)
    ]

  abbrev pub reply_of : Shown → Reply
  reply_of (shown pairs) = review pairs
  reply_of refused = send_sw swo_incorrect_data

  -- `ui_display_transaction`: the context afterwards, and the reply.
  unfoldable pub ui_display_transaction : Context → Option (Context × Reply)
  ui_display_transaction c =
      if not (is_request c.req_type confirm_transaction) || not (is_state c.state state_parsed)
      then some (record c { state = state_none }, send_sw swo_conditions_not_satisfied)
      else do pairs ← email_pairs c.tx_info.raw_tx c.tx_info.transaction; some (c, reply_of pairs)

  -- The two symbols that are kept for the shared handler.
  unfoldable pub ui_display_blind_signed_transaction : Context → Option (Context × Reply)
  ui_display_blind_signed_transaction c = ui_display_transaction c

  unfoldable pub ui_display_token_transaction : Context → Option (Context × Reply)
  ui_display_token_transaction c = ui_display_transaction c
