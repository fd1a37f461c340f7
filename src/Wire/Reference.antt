-- ===== src/Wire/Reference.antt =====
-- A parser of the wire format on lists, with no buffer, pointers or offsets. It says which status
-- each refused payload gets: the first field that is wrong decides.
use ledger_hardmail_app.Common.{
  ℕ, ◌+◌, ◌*◌, ◌≡◌, subst, Bool-cases, inl, inr, Bool, true, false, not, ◌||◌, [], ◌∷◌, Option,
  none, some, length, take, drop, ltb, ◌==◌, if◌then◌else◌,
}
use ledger_hardmail_app.Sdk.Buffers.{Bytes}
use ledger_hardmail_app.Email.{
  Status, from_parsing_error, to_parsing_error, subject_parsing_error, body_parsing_error,
  field_encoding_error, challenge_parsing_error, wrong_length_error, attachment_parsing_error,
  max_tx_len, challenge_len, max_from_len, max_to_len, max_subject_len, max_body_len,
  max_att_name_len, att_hash_len,
}
use ledger_hardmail_app.Wire.{Message, Attachment, all_text}

pub data Verdict (A : Type 0) : Type 0 where
  accept : A → Bytes → Verdict A
  refuse : Status → Verdict A

abbrev pub P : Type 0 → Type 0
P A = Bytes → Verdict A

infixl 5 ◌>>=◌ ◌>>◌
abbrev pub ◌>>=◌ : {A B : Type 0} → P A → (A → P B) → P B
◌>>=◌ p f bs = elim (p bs) [ accept a r ↦ f a r | refuse e ↦ refuse e ]

abbrev pub ◌>>◌ : {B : Type 0} → P (Unit {0}) → P B → P B
p >> q = p >>= λ _. q

-- A postcondition of what is accepted, and its rule for a bind.
pub data Ensures {A : Type 0} (Q : A → Bytes → Type 0) : Verdict A → Type 0 where
  accepts : {a : A} {r : Bytes} → Q a r → Ensures Q (accept a r)
  refuses : {e : Status} → Ensures Q (refuse e)

pub >>=-Ensures :
    {A B : Type 0} {P : A → Bytes → Type 0} {Q : B → Bytes → Type 0} {v : Verdict A}
    {f : A → Bytes → Verdict B}
    → Ensures P v
    → ((a : A) (r : Bytes) → P a r → Ensures Q (f a r))
    → Ensures Q (elim v [ accept a r ↦ f a r | refuse e ↦ refuse e ])
>>=-Ensures (accepts {a} {r} h) k = k a r h
>>=-Ensures refuses k = refuses

abbrev Holds : {A : Type 0} → (A → Bytes → Type 0) → Verdict A → Type 0
Holds Q (accept a r) = Q a r
Holds Q (refuse e) = Unit {0}

pub Ensures-accept :
    {A : Type 0} {Q : A → Bytes → Type 0} {v : Verdict A} {a : A} {r : Bytes}
    → Ensures Q v
    → v ≡ accept a r
    → Q a r
Ensures-accept {Q} (accepts h) e = subst (Holds Q) e h
Ensures-accept refuses e = cc

abbrev pub pure : {A : Type 0} → A → P A
pure a bs = accept a bs

abbrev pub require : Bool → Status → P (Unit {0})
require true e bs = accept tt bs
require false e bs = refuse e

unfoldable pub bytes : ℕ → Status → P Bytes
bytes n e bs = if ltb (length bs) n then refuse e else accept (take n bs) (drop n bs)

unfoldable pub u8 : Status → P ℕ
u8 e [] = refuse e
u8 e (n ∷ bs) = accept n bs

unfoldable pub u16_be : Status → P ℕ
u16_be e (h ∷ l ∷ bs) = accept (h * 256 + l) bs
u16_be e _ = refuse e

unfoldable pub u32_be : Status → P ℕ
u32_be e (b3 ∷ b2 ∷ b1 ∷ b0 ∷ bs) = accept (((b3 * 256 + b2) * 256 + b1) * 256 + b0) bs
u32_be e _ = refuse e

unfoldable pub text : ℕ → Status → P Bytes
text bound e = do
  n ← u8 e
  require (not (n == 0 || ltb bound n)) e
  cs ← bytes n e
  require (all_text false cs) e
  pure cs

-- The same as a ladder of tests.
pub text-cons :
    (bound : ℕ) (e : Status) (n : ℕ) (bs : Bytes)
    → text bound e (n ∷ bs) ≡ (
        if n == 0 || ltb bound n
        then refuse e
        else if ltb (length bs) n
        then refuse e
        else if all_text false (take n bs)
        then accept (take n bs) (drop n bs)
        else refuse e)
unfolding text u8 bytes
text-cons bound e n bs = elim (Bool-cases (n == 0 || ltb bound n)) [
  | inl bad ↦ rw bad
  | inr fine ↦ rw fine (elim (Bool-cases (ltb (length bs) n)) [
    | inl short ↦ rw (short, ◌>>=◌)
    | inr long ↦
        rw (long, ◌>>=◌)
          (elim (Bool-cases (all_text false (take n bs))) [ inl good ↦ rw good | inr bad ↦ rw bad ])
  ])
]

unfoldable pub body : P Bytes
body = do
  n ← u16_be body_parsing_error
  require (not (n == 0 || ltb max_body_len n)) body_parsing_error
  cs ← bytes n body_parsing_error
  require (all_text true cs) field_encoding_error
  pure cs

unfoldable pub one_attachment : P (Option Attachment)
one_attachment = do
  name ← text max_att_name_len attachment_parsing_error
  size ← u32_be attachment_parsing_error
  hash ← bytes att_hash_len attachment_parsing_error
  pure (some (record { name = name; size = size; hash = hash }))

unfoldable pub attachment : P (Option Attachment)
attachment = do
  n ← u8 attachment_parsing_error
  require (not (ltb 1 n)) attachment_parsing_error
  if n == 1 then one_attachment else pure none

unfoldable pub message : P Message
message = do
  challenge ← bytes challenge_len challenge_parsing_error
  from ← text max_from_len from_parsing_error
  to ← text max_to_len to_parsing_error
  subject ← text max_subject_len subject_parsing_error
  cs ← body
  a ← attachment
  pure (record {
    challenge = challenge;
    from = from;
    to = to;
    subject = subject;
    body = cs;
    attachment = a;
  })

abbrev pub is_nil : Bytes → Bool
is_nil [] = true
is_nil (_ ∷ _) = false

-- A payload is one message and nothing else.
unfoldable pub reference : P Message
reference bs =
    (do
      require (not (ltb max_tx_len (length bs))) wrong_length_error
      m ← message
      (λ r. require (is_nil r) wrong_length_error r)
      pure m)
      bs
