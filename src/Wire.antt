-- ===== src/Wire.antt =====
-- The wire format of the payload that src/transaction/tx_types.h describes: what a message is,
-- which messages are allowed, and how one is written. It is the specification of the parser and
-- of the serializer.
pub mod Reference
pub mod Errors
pub mod Sound
pub mod Complete
pub mod Size
use ledger_hardmail_app.Common.{
  ℕ, ◌+◌, ◌*◌, ◌/◌, ◌%◌, ◌^◌, ◌≤◌, ◌<◌, ◌≡◌, Bool, true, false, not, ◌&&◌, ◌||◌, List, [], ◌∷◌,
  ◌++◌, Option, none, some, length, ltb, leb, ◌==◌,
}
use ledger_hardmail_app.Sdk.Buffers.{Bytes}
use ledger_hardmail_app.Email.{
  challenge_len, max_from_len, max_to_len, max_subject_len, max_body_len, max_att_name_len,
  att_hash_len,
}

pub record Attachment : Type 0 where
  pub name : Bytes
  pub size : ℕ
  pub hash : Bytes

pub record Message : Type 0 where
  pub challenge : Bytes
  pub from : Bytes
  pub to : Bytes
  pub subject : Bytes
  pub body : Bytes
  pub attachment : Option Attachment

-- Printable ASCII; the flag allows newlines.
abbrev pub is_text : Bool → ℕ → Bool
is_text allow_newline c = (allow_newline && c == 0x0a) || (leb 0x20 c && leb c 0x7e)

abbrev pub all_text : Bool → Bytes → Bool
all_text allow_newline [] = true
all_text allow_newline (c ∷ cs) = is_text allow_newline c && all_text allow_newline cs

abbrev pub AllBytes : Bytes → Type 0
AllBytes [] = Unit {0}
AllBytes (c ∷ cs) = (c < 256) × AllBytes cs

-- Not empty, within a bound, and printable.
pub record IsText (allow_newline : Bool) (bound : ℕ) (cs : Bytes) : Type 0 where
  pub present : 1 ≤ length cs
  pub bounded : length cs ≤ bound
  pub printable : all_text allow_newline cs ≡ true

pub record IsAttachment (a : Attachment) : Type 0 where
  pub name_text : IsText false max_att_name_len a.name
  pub size_u32 : a.size < 2 ^ 32
  pub hash_len : length a.hash ≡ att_hash_len

abbrev pub AttachmentOk : Option Attachment → Type 0
AttachmentOk none = Unit {0}
AttachmentOk (some a) = IsAttachment a

pub record IsValid (m : Message) : Type 0 where
  pub challenge_16 : length m.challenge ≡ challenge_len
  pub from_text : IsText false max_from_len m.from
  pub to_text : IsText false max_to_len m.to
  pub subject_text : IsText false max_subject_len m.subject
  pub body_text : IsText true max_body_len m.body
  pub attachment_ok : AttachmentOk m.attachment

abbrev pub u16 : ℕ → Bytes → Bytes
u16 n r = (n / 256) ∷ (n % 256) ∷ r

abbrev pub u32 : ℕ → Bytes → Bytes
u32 n r = (n / 256 / 256 / 256 % 256) ∷ (n / 256 / 256 % 256) ∷ (n / 256 % 256) ∷ (n % 256) ∷ r

-- Each writer puts its field in front of what follows.
abbrev pub put_text : Bytes → Bytes → Bytes
put_text s r = length s ∷ (s ++ r)

abbrev pub put_attachment : Option Attachment → Bytes → Bytes
put_attachment none r = 0 ∷ r
put_attachment (some a) r = 1 ∷ put_text a.name (u32 a.size (a.hash ++ r))

abbrev pub put_message : Message → Bytes → Bytes
put_message m r =
    m.challenge
    ++ put_text m.from (
        put_text m.to
          (put_text m.subject (u16 (length m.body) (m.body ++ put_attachment m.attachment r))))

unfoldable pub encode : Message → Bytes
encode m = put_message m []
