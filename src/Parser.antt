-- ===== src/Parser.antt =====
-- src/transaction/deserialize.c. A parser state is the read buffer and the email that is being
-- filled; both are kept on an error, as the C code leaves them.
pub mod Text
pub mod Agrees
pub mod Primitives
pub mod Fields
pub mod View
pub mod Attachments
pub mod Refinement
pub mod Correct
pub mod Widths
use ledger_hardmail_app.Common.{
  ℕ, zero, suc, ◌+◌, ◌≡◌, Bool, true, false, not, ◌&&◌, ◌||◌, List, [], ◌∷◌, Option, none, some,
  get_elem?, ltb, ◌==◌, if◌then◌else◌, ◌>>=◌ as bind_option,
}
use ledger_hardmail_app.Sdk.Buffers.{Bytes, Buffer, BufferOps}
use ledger_hardmail_app.Email.{
  Status, parsing_ok, from_parsing_error, to_parsing_error, subject_parsing_error,
  body_parsing_error, field_encoding_error, challenge_parsing_error, wrong_length_error,
  attachment_parsing_error, Ptr, null, at, Email, max_tx_len, challenge_len, max_from_len,
  max_to_len, max_subject_len, max_body_len, max_att_name_len, att_hash_len,
}

pub record Parser : Type 0 where
  pub buf : Buffer
  pub tx : Email

-- `stop` is an early return with that status; `fault` a read outside of the memory.
pub data Outcome (A : Type 0) : Type 0 where
  next : A → Parser → Outcome A
  stop : Status → Parser → Outcome A
  fault : Outcome A

abbrev pub M : Type 0 → Type 0
M A = Parser → Outcome A

infixl 5 ◌>>=◌ ◌>>◌
abbrev pub ◌>>=◌ : {A B : Type 0} → M A → (A → M B) → M B
◌>>=◌ m f s = elim (m s) [ next a s' ↦ f a s' | stop e s' ↦ stop e s' | fault ↦ fault ]

abbrev pub ◌>>◌ : {B : Type 0} → M (Unit {0}) → M B → M B
m >> k = m >>= λ _. k

-- The loop of `text_ok` over the `n` bytes from `p` on.
unfoldable pub text_ok : Bytes → ℕ → ℕ → Bool → Option Bool
text_ok mem p zero allow_newline = some true
text_ok mem p (suc n) allow_newline =
    let more = text_ok mem (p + 1) n allow_newline in
    elim (get_elem? mem p) [
      | none ↦ none
      | some c ↦
          if allow_newline && c == b'\n'
          then more
          else if ltb c 0x20 || ltb 0x7e c
          then some false
          else more
    ]

-- The outputs `*field` and `*field_len` of `read_text_field`.
pub record Field : Type 0 where
  pub ptr : Ptr
  pub len : ℕ

abbrev pub require : Bool → Status → M (Unit {0})
require true e s = next tt s
require false e s = stop e s

-- `buf->ptr + buf->offset`
abbrev pub cursor : M ℕ
cursor s = next s.buf.offset s

abbrev pub update : (Email → Email) → M (Unit {0})
update f s = next tt (record s { tx = f s.tx })

abbrev pub memory : M Bytes
memory s = next s.buf.ptr s

-- A memory read that may fault.
abbrev pub reads : {A : Type 0} → Option A → M A
reads none s = fault
reads (some a) s = next a s

-- The pairs of fields that `read_text_field` is called with.
abbrev pub from_of : Email → Field
from_of tx = record { ptr = tx.from; len = tx.from_len }

abbrev pub put_from : Field → Email → Email
put_from f tx = record tx { from = f.ptr; from_len = f.len }

abbrev pub to_of : Email → Field
to_of tx = record { ptr = tx.to; len = tx.to_len }

abbrev pub put_to : Field → Email → Email
put_to f tx = record tx { to = f.ptr; to_len = f.len }

abbrev pub subject_of : Email → Field
subject_of tx = record { ptr = tx.subject; len = tx.subject_len }

abbrev pub put_subject : Field → Email → Email
put_subject f tx = record tx { subject = f.ptr; subject_len = f.len }

abbrev pub att_name_of : Email → Field
att_name_of tx = record { ptr = tx.att_name; len = tx.att_name_len }

abbrev pub put_att_name : Field → Email → Email
put_att_name f tx = record tx { att_name = f.ptr; att_name_len = f.len }

abbrev pub returned : Outcome (Unit {0}) → Option (Status × Parser)
returned (next _ s) = some (parsing_ok, s)
returned (stop e s) = some (e, s)
returned fault = none

module _ (ops : BufferOps) where
  -- A seek or a read whose failure ends the parse with a status.
  abbrev pub seek_or : Status → ℕ → M (Unit {0})
  seek_or e n s =
      let (done, b) = ops.seek_cur s.buf n in
      if done then next tt (record s { buf = b }) else stop e (record s { buf = b })

  abbrev pub value_or : Status → (Buffer → Bool × ℕ × Buffer) → M ℕ
  value_or e read s =
      let (done, v, b) = read s.buf in
      if done then next v (record s { buf = b }) else stop e (record s { buf = b })

  -- `read_text_field`: whether it succeeded, the outputs, and the buffer. `*field` is set before
  -- the seek and `*field_len` only at the end.
  unfoldable pub read_text_field : Buffer → Field → ℕ → Option (Bool × Field × Buffer)
  read_text_field b f max_len =
      let (got, len, b1) = ops.read_u8 b in
      if not got
      then some (false, f, b1)
      else if len == 0 || ltb max_len len
      then some (false, f, b1)
      else let f1 = record f { ptr = at b1.offset } in
        let (sought, b2) = ops.seek_cur b1 len in
        if not sought
        then some (false, f1, b2)
        else bind_option (text_ok b1.ptr b1.offset len false) λ fine.
          if not fine then some (false, f1, b2) else some (true, record f1 { len = len }, b2)

  -- A call of `read_text_field` on two fields of the email.
  unfoldable pub text_field : (Email → Field) → (Field → Email → Email) → ℕ → Status → M (Unit {0})
  text_field get put max_len e s = elim (read_text_field s.buf (get s.tx) max_len) [
    | none ↦ fault
    | some (done, f, b) ↦
        let s' : Parser = record { buf = b; tx = put f s.tx } in
        if done then next tt s' else stop e s'
  ]

  unfoldable pub challenge_field : M (Unit {0})
  challenge_field = do
    p ← cursor
    update (λ tx. record tx { challenge = at p })
    seek_or challenge_parsing_error challenge_len

  unfoldable pub body_field : M (Unit {0})
  body_field = do
    body_len ← value_or body_parsing_error ops.read_u16_be
    require (not (body_len == 0 || ltb max_body_len body_len)) body_parsing_error
    mem ← memory
    p ← cursor
    update (λ tx. record tx { body = at p })
    seek_or body_parsing_error body_len
    fine ← reads (text_ok mem p body_len true)
    require fine field_encoding_error
    update (λ tx. record tx { body_len = body_len })

  unfoldable pub attachment : M (Unit {0})
  attachment = do
    text_field att_name_of put_att_name max_att_name_len attachment_parsing_error
    size ← value_or attachment_parsing_error ops.read_u32_be
    update (λ tx. record tx { att_size = size })
    p ← cursor
    update (λ tx. record tx { att_hash = at p })
    seek_or attachment_parsing_error att_hash_len
    update (λ tx. record tx { has_attachment = 1 })

  unfoldable pub attachment_field : M (Unit {0})
  attachment_field = do
    update (λ tx. record tx {
      has_attachment = 0;
      att_name = null;
      att_name_len = 0;
      att_size = 0;
      att_hash = null;
    })
    att_count ← value_or attachment_parsing_error ops.read_u8
    require (not (ltb 1 att_count)) attachment_parsing_error
    if att_count == 1 then attachment else λ s. next tt s

  -- The body of `transaction_deserialize`, up to the final return.
  unfoldable pub fields : M (Unit {0})
  fields = do
    challenge_field
    text_field from_of put_from max_from_len from_parsing_error
    text_field to_of put_to max_to_len to_parsing_error
    text_field subject_of put_subject max_subject_len subject_parsing_error
    body_field
    attachment_field

  unfoldable pub parse : M (Unit {0})
  parse = do
    (λ s. require (not (ltb max_tx_len s.buf.size)) wrong_length_error s)
    fields
    (λ s. require (s.buf.offset == s.buf.size) wrong_length_error s)

  -- `transaction_deserialize (buf, tx, _)`: the status, and the buffer and the email afterwards.
  unfoldable pub transaction_deserialize : Buffer → Email → Option (Status × Parser)
  transaction_deserialize buf tx = returned (parse (record { buf = buf; tx = tx }))
