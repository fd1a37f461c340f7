-- ===== src/Display/Injective.antt =====
-- When two messages look the same in the review of src/ui/nbgl_display_transaction.c.
use ledger_hardmail_app.Common.{
  ℕ, ◌/◌, ◌%◌, ◌^◌, ◌<◌, ◌≡◌, refl, sym, ap, ◌∙◌, List, [], ◌∷◌, ◌++◌, Option, none, some, arith,
  length, take, take-append, length-append,
}
use ledger_hardmail_app.Sdk.Buffers.{Bytes}
use ledger_hardmail_app.Sdk.Crypto.{hex, hex_digit}
use ledger_hardmail_app.Wire.{Attachment, Message, IsValid, AttachmentOk, AllBytes}
use ledger_hardmail_app.Context.{Pair}
use ledger_hardmail_app.Display.{codes, decimal, pair}
use ledger_hardmail_app.Display.Numbers.{
  value_from, value_from-decimal, occurs-append_none, occurs-append_right, occurs-decimal,
}
use ledger_hardmail_app.Display.Review.{attachment_review, review_of}

cons_injective : {A : Type 0} {x y : A} {xs ys : List A} → x ∷ xs ≡ y ∷ ys → (x ≡ y) × (xs ≡ ys)
cons_injective e = ground (arith, e)

hex_digit_injective : (a b : ℕ) → a < 16 → b < 16 → hex_digit a ≡ hex_digit b → a ≡ b
hex_digit_injective a b h k e = ground (arith, e)

byte_of_digits : (a b : ℕ) → a / 16 ≡ b / 16 → a % 16 ≡ b % 16 → a ≡ b
byte_of_digits a b h k = omega arith

hex_injective : (xs ys : Bytes) → AllBytes xs → AllBytes ys → hex xs ≡ hex ys → xs ≡ ys
hex_injective [] [] h k e = refl
hex_injective [] (y ∷ ys) h k e = ground (arith, e)
hex_injective (x ∷ xs) [] h k e = ground (arith, e)
hex_injective (x ∷ xs) (y ∷ ys) (hx, h) (hy, k) e =
    let (high, e1) = cons_injective e in
    let (low, e2) = cons_injective e1 in
    let same =
      byte_of_digits x y (hex_digit_injective (x / 16) (y / 16) (omega arith) (omega arith) high)
        (hex_digit_injective (x % 16) (y % 16) (omega arith) (omega arith) low) in
    let more = hex_injective xs ys h k e2 in rw (same, more) refl

-- What follows a name on the line of an attachment.
abbrev size_part : ℕ → Bytes
size_part n = codes " (" ++ (decimal 10 n ++ codes " bytes)")

digits_injective : (xs ys r : Bytes) → xs ++ r ≡ ys ++ r → xs ≡ ys
digits_injective xs ys r e =
    let n : length xs ≡ length ys =
      omega (arith, length-append xs r, length-append ys r, ap length e) in
    sym (take-append (length xs) xs r refl)
    ∙ ap (take (length xs)) e
    ∙ take-append (length xs) ys r n

size_part_injective : (n n' : ℕ) → n < 2 ^ 32 → n' < 2 ^ 32 → size_part n ≡ size_part n' → n ≡ n'
size_part_injective n n' h h' e =
    let (_, e1) = cons_injective e in
    let (_, e2) = cons_injective e1 in
    let digits = digits_injective (decimal 10 n) (decimal 10 n') (codes " bytes)") e2 in
    sym (value_from-decimal 10 n (omega arith))
    ∙ ap (value_from 0) digits
    ∙ value_from-decimal 10 n' (omega arith)

-- After its parenthesis the size has no other one, so no name can be mistaken for a part of it.
one_parenthesis : (n n' b : ℕ) (name : Bytes) → size_part n ≡ b ∷ (name ++ size_part n') → ⊥
one_parenthesis n n' b [] e =
    let (_, e1) = cons_injective e in
    let (clash, _) = cons_injective e1 in absurd (omega (arith, clash))
one_parenthesis n n' b (c ∷ name) e =
    let (_, e1) = cons_injective e in
    let (_, e2) = cons_injective e1 in
    let none_left =
      occurs-append_none 0x28 (decimal 10 n) (codes " bytes)") (occurs-decimal 10 n) refl in
    let one_right = occurs-append_right 0x28 name (size_part n') refl in
    absurd (ground (arith, e2, none_left, one_right))

line_injective :
    (name name' : Bytes) (n n' : ℕ)
    → name ++ size_part n ≡ name' ++ size_part n'
    → (name ≡ name') × (size_part n ≡ size_part n')
line_injective [] [] n n' e = (refl, e)
line_injective [] (b ∷ name') n n' e = elim (one_parenthesis n n' b name' e) [ ]
line_injective (a ∷ name) [] n n' e = elim (one_parenthesis n' n a name (sym e)) [ ]
line_injective (a ∷ name) (b ∷ name') n n' e =
    let (head, tail) = cons_injective e in
    let (same, size) = line_injective name name' n n' tail in (rw (head, same) refl, size)

abbrev pub AttachmentBytes : Option Attachment → Type 0
AttachmentBytes none = Unit {0}
AttachmentBytes (some a) = AllBytes a.hash

-- The bytes that are shown in hexadecimal.
abbrev pub HexBytes : Message → Type 0
HexBytes m = AllBytes m.challenge × AttachmentBytes m.attachment

attachment_injective :
    (a a' : Option Attachment) (r r' : Bytes)
    → AttachmentOk a
    → AttachmentOk a'
    → AttachmentBytes a
    → AttachmentBytes a'
    → attachment_review a ++ pair "Request ID" r ∷ []
      ≡ attachment_review a' ++ pair "Request ID" r' ∷ []
    → (a ≡ a') × (r ≡ r')
attachment_injective none none r r' ok ok' h h' e =
    (refl, ap (λ (p : Pair). p.value) (cons_injective e).0)
attachment_injective none (some a') r r' ok ok' h h' e = absurd (omega (arith, ap length e))
attachment_injective (some a) none r r' ok ok' h h' e = absurd (omega (arith, ap length e))
attachment_injective (some a) (some a') r r' ok ok' h h' e =
    let (line, e1) = cons_injective e in
    let (hash, e2) = cons_injective e1 in
    let (request, _) = cons_injective e2 in
    let (name, size) =
      line_injective a.name a'.name a.size a'.size (ap (λ (p : Pair). p.value) line) in
    let same_size = size_part_injective a.size a'.size ok.size_u32 ok'.size_u32 size in
    let same_hash = hex_injective a.hash a'.hash h h' (ap (λ (p : Pair). p.value) hash) in
    (ground (arith, name, same_size, same_hash), ap (λ (p : Pair). p.value) request)

-- Two allowed messages of bytes with the same review are equal, so nothing of a message can change
-- without the review changing.
pub review_of-injective :
    (m m' : Message)
    → IsValid m
    → IsValid m'
    → HexBytes m
    → HexBytes m'
    → review_of m ≡ review_of m'
    → m ≡ m'
review_of-injective m m' v v' h h' e =
    let (from, e1) = cons_injective e in
    let (to, e2) = cons_injective e1 in
    let (subject, e3) = cons_injective e2 in
    let (body, e4) = cons_injective e3 in
    let (attachment, request) =
      attachment_injective m.attachment m'.attachment _ _ v.attachment_ok v'.attachment_ok h.1 h'.1
        e4 in
    let challenge = hex_injective m.challenge m'.challenge h.0 h'.0 request in
    let from' = ap (λ (p : Pair). p.value) from in
    let to' = ap (λ (p : Pair). p.value) to in
    let subject' = ap (λ (p : Pair). p.value) subject in
    let body' = ap (λ (p : Pair). p.value) body in
    ground (arith, from', to', subject', body', attachment, challenge)
