-- ===== src/Parser/Widths.antt =====
-- The widths of the fields of `email_t` in src/transaction/tx_types.h.
use ledger_hardmail_app.Common.{
  ℕ, ◌<◌, ◌≤◌, ◌^◌, Bool, arith, ◌==◌, if◌then◌else◌, Bool-cases, inl, inr,
}
use ledger_hardmail_app.Sdk.Buffers.{Bytes}
use ledger_hardmail_app.Email.{Ptr, Email}
use ledger_hardmail_app.Wire.{IsText, IsValid, IsAttachment}
use ledger_hardmail_app.Parser.View.{load, view, InMemory, IsInMemory, length-load}

abbrev pub AttachmentWide : Email → Type 0
AttachmentWide tx =
    if tx.has_attachment == 0 then Unit {0} else (tx.att_name_len < 256) × (tx.att_size < 2 ^ 32)

-- The widths that src/transaction/tx_types.h declares.
pub record IsWide (tx : Email) : Type 0 where
  pub from_u8 : tx.from_len < 256
  pub to_u8 : tx.to_len < 256
  pub subject_u8 : tx.subject_len < 256
  pub body_u16 : tx.body_len < 65536
  pub attachment_wide : AttachmentWide tx

text_le :
    (nl : Bool) (bound : ℕ) (mem : Bytes) (p : Ptr) (n : ℕ)
    → InMemory mem p n
    → IsText nl bound (load mem p n)
    → n ≤ bound
text_le nl bound mem p n held t = omega (arith, length-load mem p n held, t.bounded)

pub view-IsWide : (mem : Bytes) (tx : Email) → IsInMemory mem tx → IsValid (view mem tx) → IsWide tx
view-IsWide mem tx held valid = record {
  from_u8 = omega (arith, text_le _ _ mem tx.from tx.from_len held.from_in valid.from_text);
  to_u8 = omega (arith, text_le _ _ mem tx.to tx.to_len held.to_in valid.to_text);
  subject_u8 =
      omega (arith, text_le _ _ mem tx.subject tx.subject_len held.subject_in valid.subject_text);
  body_u16 = omega (arith, text_le _ _ mem tx.body tx.body_len held.body_in valid.body_text);
  attachment_wide = elim (Bool-cases (tx.has_attachment == 0)) [
    | inl e ↦ rw e tt
    | inr e ↦
        let (name_in, _) = (rw e at held.attachment_in) in
        let ok : IsAttachment (record {
          name = load mem tx.att_name tx.att_name_len;
          size = tx.att_size;
          hash = load mem tx.att_hash 32;
        }) =
          rw e at valid.attachment_ok in
        rw e (
          omega (arith, text_le _ _ mem tx.att_name tx.att_name_len name_in ok.name_text),
          ok.size_u32,
        )
  ];
}
