-- ===== src/Display/Numbers.antt =====
-- `%u` of snprintf, as src/ui/nbgl_display_transaction.c prints the size of an attachment.
use ledger_hardmail_app.Common.{
  ℕ, zero, suc, ◌+◌, ◌-◌, ◌*◌, ◌/◌, ◌%◌, ◌^◌, ◌≤◌, ◌<◌, ◌≡◌, refl, ap, ◌∙◌, Bool, true, false, [],
  ◌∷◌, ◌++◌, arith, length, ltb, ◌==◌, if◌then◌else◌, length-append, Bool-cases, inl, inr,
}
use ledger_hardmail_app.Sdk.Buffers.{Bytes}
use ledger_hardmail_app.Display.{decimal}

-- The number that decimal digits stand for, after the digits of `front`.
abbrev pub value_from : ℕ → Bytes → ℕ
value_from front [] = front
value_from front (c ∷ cs) = value_from (front * 10 + (c - 0x30)) cs

value_from-append :
    (front : ℕ) (xs ys : Bytes) → value_from front (xs ++ ys) ≡ value_from (value_from front xs) ys
value_from-append front [] ys = refl
value_from-append front (x ∷ xs) ys = value_from-append (front * 10 + (x - 0x30)) xs ys

-- With as many digits as the fuel allows, the digits stand for the number.
pub value_from-decimal : (fuel n : ℕ) → n < 10 ^ fuel → value_from 0 (decimal fuel n) ≡ n
unfolding decimal
value_from-decimal zero n h = omega arith
value_from-decimal (suc fuel) n h = elim (Bool-cases (ltb n 10)) [
  | inl e ↦ rw e (omega arith)
  | inr e ↦ rw e (
      value_from-append 0 (decimal fuel (n / 10)) _
      ∙ ap (λ k. value_from k ((0x30 + n % 10) ∷ []))
          (value_from-decimal fuel (n / 10) (omega arith))
      ∙ omega arith)
]

pub length-decimal_le : (fuel n : ℕ) → length (decimal fuel n) ≤ fuel
unfolding decimal
length-decimal_le zero n = omega arith
length-decimal_le (suc fuel) n = elim (Bool-cases (ltb n 10)) [
  | inl e ↦ rw e (omega arith)
  | inr e ↦ rw e (
      omega (
        arith,
        length-append (decimal fuel (n / 10)) ((0x30 + n % 10) ∷ []),
        length-decimal_le fuel (n / 10),
      ))
]

-- Whether a byte occurs.
abbrev pub occurs : ℕ → Bytes → Bool
occurs x [] = false
occurs x (c ∷ cs) = if c == x then true else occurs x cs

pub occurs-append_none :
    (x : ℕ) (xs ys : Bytes)
    → occurs x xs ≡ false
    → occurs x ys ≡ false
    → occurs x (xs ++ ys) ≡ false
occurs-append_none x [] ys h k = k
occurs-append_none x (c ∷ cs) ys h k = elim (Bool-cases (c == x)) [
  | inl e ↦ absurd (ground (arith, e, h))
  | inr e ↦ rw e (occurs-append_none x cs ys (rw e at h) k)
]

pub occurs-append_right : (x : ℕ) (xs ys : Bytes) → occurs x ys ≡ true → occurs x (xs ++ ys) ≡ true
occurs-append_right x [] ys h = h
occurs-append_right x (c ∷ cs) ys h = elim (Bool-cases (c == x)) [
  | inl e ↦ rw e refl
  | inr e ↦ rw e (occurs-append_right x cs ys h)
]

-- Digits are no parenthesis.
pub occurs-decimal : (fuel n : ℕ) → occurs 0x28 (decimal fuel n) ≡ false
unfolding decimal
occurs-decimal zero n = refl
occurs-decimal (suc fuel) n = elim (Bool-cases (ltb n 10)) [
  | inl e ↦ rw e (ground (arith, e))
  | inr e ↦ rw e (
      occurs-append_none 0x28 (decimal fuel (n / 10)) _ (occurs-decimal fuel (n / 10))
        (ground arith))
]
