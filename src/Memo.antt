-- ===== src/Memo.antt =====
-- src/transaction/utils.c: helpers that the boilerplate left.
use ledger_hardmail_app.Common.{
  ◌+◌, ◌≤◌, ◌<◌, ◌≡◌, Bool, true, false, ◌||◌, [], ◌∷◌, ◌++◌, Option, none, some, arith, length,
  ltb, if◌then◌else◌, take, write_at, inl, inr, Bool-cases, ltb→le, ltb→lt, refl, le→ltb,
  take-write_at_start, write_at-append, ◌∙◌, ap, length-append, length-write_at, ◌↔◌,
}
use ledger_hardmail_app.Sdk.Buffers.{Bytes}
use ledger_hardmail_app.Email.{max_memo_len}

-- `transaction_utils_check_encoding`, of a memo that is not NULL.
unfoldable pub check_encoding : Bytes → Bool
check_encoding [] = true
check_encoding (c ∷ memo) = let more = check_encoding memo in if ltb 0x7f c then false else more

-- `transaction_utils_format_memo`: the destination afterwards, or false.
unfoldable pub format_memo : Bytes → Bytes → Option Bytes
format_memo memo dst =
    if ltb max_memo_len (length memo) || ltb (length dst) (length memo + 1)
    then none
    else some (write_at (write_at dst 0 memo) (length memo) (0 ∷ []))

-- ASCII characters.
abbrev pub AllAscii : Bytes → Type 0
AllAscii [] = Unit {0}
AllAscii (c ∷ memo) = (c < 0x80) × AllAscii memo

-- A memo passes exactly when all its bytes are ASCII.
pub check_encoding_iff : (memo : Bytes) → (check_encoding memo ≡ true) ↔ AllAscii memo
unfolding check_encoding
check_encoding_iff [] = (λ _. tt, λ _. refl)
check_encoding_iff (c ∷ memo) =
    let (to, from) = check_encoding_iff memo in
    elim (Bool-cases (ltb 0x7f c)) [
      | inl e ↦ (
        λ h. absurd (ground (arith, e, rw e at h)),
        λ h. absurd (omega (arith, ltb→lt 0x7f c e, h.0)),
      )
      | inr e ↦ rw e ((λ h. (omega (arith, ltb→le 0x7f c e), to h)), λ h. from h.1)
    ]

-- A memo within the bound, and a destination with room for it and a terminator: the destination
-- keeps its size and begins with the memo and a zero.
pub format_memo_lem :
    (memo dst : Bytes)
    → length memo ≤ max_memo_len
    → length memo + 1 ≤ length dst
    → (out : Bytes) × (format_memo memo dst ≡ some out)
      × (take (length memo + 1) out ≡ memo ++ 0 ∷ [])
      × (length out ≡ length dst)
unfolding format_memo
format_memo_lem memo dst short room =
    let src = memo ++ 0 ∷ [] in
    let n = length-append memo (0 ∷ []) in
    let k : length memo + 1 ≡ length src = omega arith in
    let joined : write_at (write_at dst 0 memo) (length memo) (0 ∷ []) ≡ write_at dst 0 src =
      ap (λ p. write_at (write_at dst 0 memo) p (0 ∷ [])) (omega arith)
      ∙ write_at-append dst 0 memo (0 ∷ []) in
    (
      _,
      rw (le→ltb max_memo_len (length memo) short, le→ltb (length dst) (length memo + 1) room) refl,
      ap (λ out. take (length memo + 1) out) joined
          ∙ ap (λ p. take p (write_at dst 0 src)) k
          ∙ take-write_at_start dst src (omega arith),
      length-write_at _ _ _ ∙ length-write_at _ _ _,
    )
