-- ===== src/Swap/Text.antt =====
-- The C strings that src/swap compares.
use ledger_hardmail_app.Common.{
  ℕ, zero, suc, ◌≡◌, refl, ap, true, false, [], ◌∷◌, ◌↔◌, arith, length, take, write_at, ◌==◌,
  Bool-cases, inl, inr,
}
use ledger_hardmail_app.Sdk.Buffers.{Bytes}
use ledger_hardmail_app.Context.{zero_bytes}
use ledger_hardmail_app.Display.{c_string}
use ledger_hardmail_app.Swap.{same_text}
use ledger_hardmail_app.Swap.Copy.{upper, upper_text}

same_text_refl : (a : Bytes) → same_text a a ≡ true
same_text_refl [] = refl
same_text_refl (x ∷ a) = ground (arith, same_text_refl a)

same_text_eq : (a b : Bytes) → same_text a b ≡ true → a ≡ b
same_text_eq [] [] h = refl
same_text_eq [] (y ∷ b) h = absurd (ground (arith, h))
same_text_eq (x ∷ a) [] h = absurd (ground (arith, h))
same_text_eq (x ∷ a) (y ∷ b) h =
    let head : x ≡ y = ground (arith, h) in
    let tail : same_text a b ≡ true = ground (arith, h) in rw (head, same_text_eq a b tail) refl

pub same_text_iff : (a b : Bytes) → (same_text a b ≡ true) ↔ (a ≡ b)
same_text_iff a b = (same_text_eq a b, λ e. rw e (same_text_refl b))

upper_not_zero : (c : ℕ) → (c == 0) ≡ false → (upper c == 0) ≡ false
upper_not_zero c h = ground arith

-- A C string of `n` characters that is copied in upper case over an array of `n + 1` zeros.
pub upper_text-c_string :
    (n : ℕ) (s : Bytes)
    → length (c_string s) ≡ n
    → c_string (write_at (zero_bytes (suc n)) 0 (upper_text (take n s))) ≡ upper_text (c_string s)
unfolding zero_bytes
upper_text-c_string zero [] h = refl
upper_text-c_string zero (c ∷ cs) h = elim (Bool-cases (c == 0)) [
  | inl e ↦ rw e refl
  | inr e ↦ absurd (let h' = (rw e at h) in omega (arith, h'))
]
upper_text-c_string (suc n) [] h = absurd (omega (arith, h))
upper_text-c_string (suc n) (c ∷ cs) h = elim (Bool-cases (c == 0)) [
  | inl e ↦ absurd (let h' = (rw e at h) in omega (arith, h'))
  | inr e ↦
      let h' : length (c_string cs) ≡ n = (let k = (rw e at h) in omega (arith, k)) in
      rw (e, upper_not_zero c e) (ap (◌∷◌ (upper c)) (upper_text-c_string n cs h'))
]
