-- ===== src/Parser/View.antt =====
-- The message that an `email_t` of src/transaction/tx_types.h stands for, given the payload that
-- its pointers refer to.
use ledger_hardmail_app.Common.{
  ℕ, ◌+◌, ◌≤◌, ◌≡◌, length, [], Option, none, some, ◌==◌, if◌then◌else◌, slice, length-slice,
}
use ledger_hardmail_app.Sdk.Buffers.{Bytes}
use ledger_hardmail_app.Email.{Ptr, null, at, Email, challenge_len, att_hash_len}
use ledger_hardmail_app.Wire.{Attachment, Message}

abbrev pub load : Bytes → Ptr → ℕ → Bytes
load mem null n = []
load mem (at p) n = slice mem p n

abbrev pub view_attachment : Bytes → Email → Option Attachment
view_attachment mem tx =
    if tx.has_attachment == 0
    then none
    else some (record {
      name = load mem tx.att_name tx.att_name_len;
      size = tx.att_size;
      hash = load mem tx.att_hash att_hash_len;
    })

abbrev pub view : Bytes → Email → Message
view mem tx = record {
  challenge = load mem tx.challenge challenge_len;
  from = load mem tx.from tx.from_len;
  to = load mem tx.to tx.to_len;
  subject = load mem tx.subject tx.subject_len;
  body = load mem tx.body tx.body_len;
  attachment = view_attachment mem tx;
}

-- `n` bytes from the pointer on lie in the memory.
abbrev pub InMemory : Bytes → Ptr → ℕ → Type 0
InMemory mem null n = ⊥
InMemory mem (at p) n = p + n ≤ length mem

pub InMemory-at :
    (mem : Bytes) {q : Ptr} {k : ℕ} (p n : ℕ)
    → q ≡ at p
    → k ≡ n
    → p + n ≤ length mem
    → InMemory mem q k
InMemory-at mem p n e k h = rw (e, k) h

abbrev pub AttachmentInMemory : Bytes → Email → Type 0
AttachmentInMemory mem tx =
    if tx.has_attachment == 0
    then Unit {0}
    else InMemory mem tx.att_name tx.att_name_len × InMemory mem tx.att_hash att_hash_len

-- Every pointer of the email has its bytes in the memory.
pub record IsInMemory (mem : Bytes) (tx : Email) : Type 0 where
  pub challenge_in : InMemory mem tx.challenge challenge_len
  pub from_in : InMemory mem tx.from tx.from_len
  pub to_in : InMemory mem tx.to tx.to_len
  pub subject_in : InMemory mem tx.subject tx.subject_len
  pub body_in : InMemory mem tx.body tx.body_len
  pub attachment_in : AttachmentInMemory mem tx

pub length-load : (mem : Bytes) (p : Ptr) (n : ℕ) → InMemory mem p n → length (load mem p n) ≡ n
length-load mem null n h = elim h [ ]
length-load mem (at p) n h = length-slice mem p n h
