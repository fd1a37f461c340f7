-- ===== src/Parser/Text.antt =====
-- The loop of `text_ok` in src/transaction/deserialize.c against the text of the wire format.
use ledger_hardmail_app.Common.{
  ℕ, zero, suc, ◌+◌, ◌≤◌, ◌≡◌, refl, Bool, some, arith, length, slice, drop-lt-cons, ap,
}
use ledger_hardmail_app.Sdk.Buffers.{Bytes}
use ledger_hardmail_app.Wire.{all_text}
use ledger_hardmail_app.Parser.{text_ok}

-- Inside of the memory the loop does not fault, and it tells exactly the allowed texts.
pub text_ok-all_text :
    (mem : Bytes) (p n : ℕ) (allow_newline : Bool)
    → p + n ≤ length mem
    → text_ok mem p n allow_newline ≡ some (all_text allow_newline (slice mem p n))
unfolding text_ok
text_ok-all_text mem p zero nl h = refl
text_ok-all_text mem p (suc n) nl h =
    let (c, got, split) = drop-lt-cons p mem (omega arith) in
    let ih = text_ok-all_text mem (p + 1) n nl (omega arith) in
    let step : suc p ≡ p + 1 = omega arith in
    let same : slice mem (suc p) n ≡ slice mem (p + 1) n = ap (λ k. slice mem k n) step in
    rw split (ground (arith, got, ih, same))
