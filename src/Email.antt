-- ===== src/Email.antt =====
-- The data types of src/transaction/tx_types.h and the numbers of src/constants.h.
use ledger_hardmail_app.Common.{ℕ}

abbrev pub max_tx_len : ℕ
max_tx_len = 2600

abbrev pub address_len : ℕ
address_len = 20

abbrev pub challenge_len : ℕ
challenge_len = 16

abbrev pub max_from_len : ℕ
max_from_len = 128

abbrev pub max_to_len : ℕ
max_to_len = 128

abbrev pub max_subject_len : ℕ
max_subject_len = 200

abbrev pub max_body_len : ℕ
max_body_len = 2048

abbrev pub max_att_name_len : ℕ
max_att_name_len = 64

abbrev pub att_hash_len : ℕ
att_hash_len = 32

abbrev pub max_memo_len : ℕ
max_memo_len = 465

-- `parser_status_e`.
pub data Status : Type 0 where
  parsing_ok : Status
  from_parsing_error : Status
  to_parsing_error : Status
  subject_parsing_error : Status
  body_parsing_error : Status
  field_encoding_error : Status
  challenge_parsing_error : Status
  wrong_length_error : Status
  attachment_parsing_error : Status

-- A pointer into the payload: `at p` points at its byte `p`.
pub data Ptr : Type 0 where
  null : Ptr
  at : ℕ → Ptr

-- `email_t`: its pointers refer to the payload, which is not copied.
pub record Email : Type 0 where
  pub challenge : Ptr
  pub from : Ptr
  pub from_len : ℕ
  pub to : Ptr
  pub to_len : ℕ
  pub subject : Ptr
  pub subject_len : ℕ
  pub body : Ptr
  pub body_len : ℕ
  pub has_attachment : ℕ
  pub att_name : Ptr
  pub att_name_len : ℕ
  pub att_size : ℕ
  pub att_hash : Ptr

-- All bytes zero, as `explicit_bzero` leaves it.
abbrev pub zero_email : Email
zero_email = record {
  challenge = null;
  from = null;
  from_len = 0;
  to = null;
  to_len = 0;
  subject = null;
  subject_len = 0;
  body = null;
  body_len = 0;
  has_attachment = 0;
  att_name = null;
  att_name_len = 0;
  att_size = 0;
  att_hash = null;
}
