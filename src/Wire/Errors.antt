-- ===== src/Wire/Errors.antt =====
-- A payload that the reference parser refuses gets an error, never `parsing_ok`.
use ledger_hardmail_app.Common.{
  ℕ, ◌≡◌, refl, Bool, true, false, [], ◌∷◌, ltb, length, ◌==◌, if◌then◌else◌, none, arith, inl, inr,
  Bool-cases,
}
use ledger_hardmail_app.Sdk.Buffers.{Bytes}
use ledger_hardmail_app.Email.{Status, parsing_ok}
use ledger_hardmail_app.Wire.Reference.{
  Verdict, accept, refuse, bytes, u8, u16_be, u32_be, text, body, one_attachment, attachment,
  message, reference, require, pure,
}

abbrev pub is_error : Status → Bool
is_error parsing_ok = false
is_error _ = true

data Errs {A : Type 0} : Verdict A → Type 0 where
  accepted : {a : A} {r : Bytes} → Errs (accept a r)
  refused : {e : Status} → is_error e ≡ true → Errs (refuse e)

>>=-Errs :
    {A B : Type 0} {v : Verdict A} {f : A → Bytes → Verdict B}
    → Errs v
    → ((a : A) (r : Bytes) → Errs (f a r))
    → Errs (elim v [ accept a r ↦ f a r | refuse e ↦ refuse e ])
>>=-Errs (accepted {a} {r}) k = k a r
>>=-Errs (refused h) k = refused h

require-Errs : (b : Bool) (e : Status) (bs : Bytes) → is_error e ≡ true → Errs (require b e bs)
require-Errs true e bs h = accepted
require-Errs false e bs h = refused h

bytes-Errs : (n : ℕ) (e : Status) (bs : Bytes) → is_error e ≡ true → Errs (bytes n e bs)
unfolding bytes
bytes-Errs n e bs h = elim (Bool-cases (ltb (length bs) n)) [
  | inl short ↦ rw short (refused h)
  | inr long ↦ rw long accepted
]

u8-Errs : (e : Status) (bs : Bytes) → is_error e ≡ true → Errs (u8 e bs)
unfolding u8
u8-Errs e [] h = refused h
u8-Errs e (x ∷ bs) h = accepted

u16_be-Errs : (e : Status) (bs : Bytes) → is_error e ≡ true → Errs (u16_be e bs)
unfolding u16_be
u16_be-Errs e [] h = refused h
u16_be-Errs e (x ∷ []) h = refused h
u16_be-Errs e (x ∷ y ∷ bs) h = accepted

u32_be-Errs : (e : Status) (bs : Bytes) → is_error e ≡ true → Errs (u32_be e bs)
unfolding u32_be
u32_be-Errs e [] h = refused h
u32_be-Errs e (x ∷ []) h = refused h
u32_be-Errs e (x ∷ y ∷ []) h = refused h
u32_be-Errs e (x ∷ y ∷ z ∷ []) h = refused h
u32_be-Errs e (x ∷ y ∷ z ∷ w ∷ bs) h = accepted

text-Errs : (bound : ℕ) (e : Status) (bs : Bytes) → is_error e ≡ true → Errs (text bound e bs)
unfolding text
text-Errs bound e bs h = >>=-Errs (u8-Errs e bs h) λ n r1. >>=-Errs (require-Errs _ e r1 h) λ _ r2.
    >>=-Errs (bytes-Errs n e r2 h) λ cs r3. >>=-Errs (require-Errs _ e r3 h) λ _ r4. accepted

body-Errs : (bs : Bytes) → Errs (body bs)
unfolding body
body-Errs bs = >>=-Errs (u16_be-Errs _ bs refl) λ n r1. >>=-Errs (require-Errs _ _ r1 refl) λ _ r2.
    >>=-Errs (bytes-Errs n _ r2 refl) λ cs r3. >>=-Errs (require-Errs _ _ r3 refl) λ _ r4. accepted

one_attachment-Errs : (bs : Bytes) → Errs (one_attachment bs)
unfolding one_attachment
one_attachment-Errs bs = >>=-Errs (text-Errs _ _ bs refl) λ name r1.
    >>=-Errs (u32_be-Errs _ r1 refl)
      λ size r2. >>=-Errs (bytes-Errs _ _ r2 refl) λ hash r3. accepted

by_count-Errs : (n : ℕ) (bs : Bytes) → Errs ((if n == 1 then one_attachment else pure none) bs)
by_count-Errs n bs = elim (Bool-cases (n == 1)) [
  | inl one ↦ rw one (one_attachment-Errs bs)
  | inr other ↦ rw other accepted
]

attachment-Errs : (bs : Bytes) → Errs (attachment bs)
unfolding attachment
attachment-Errs bs =
    >>=-Errs (u8-Errs _ bs refl)
      λ n r1. >>=-Errs (require-Errs _ _ r1 refl) λ _ r2. by_count-Errs n r2

message-Errs : (bs : Bytes) → Errs (message bs)
unfolding message
message-Errs bs = >>=-Errs (bytes-Errs _ _ bs refl) λ challenge r1.
    >>=-Errs (text-Errs _ _ r1 refl) λ from r2. >>=-Errs (text-Errs _ _ r2 refl) λ to r3.
      >>=-Errs (text-Errs _ _ r3 refl) λ subject r4.
        >>=-Errs (body-Errs r4) λ cs r5. >>=-Errs (attachment-Errs r5) λ a r6. accepted

reference-Errs : (bs : Bytes) → Errs (reference bs)
unfolding reference
reference-Errs bs =
    >>=-Errs (require-Errs _ _ bs refl) λ _ r1.
      >>=-Errs (message-Errs r1) λ m r2. >>=-Errs (require-Errs _ _ r2 refl) λ _ r3. accepted

Errs-refuse : {A : Type 0} {v : Verdict A} {e : Status} → Errs v → v ≡ refuse e → is_error e ≡ true
Errs-refuse accepted q = cc
Errs-refuse (refused h) q = ground arith

pub reference-refuse : (bs : Bytes) {e : Status} → reference bs ≡ refuse e → is_error e ≡ true
reference-refuse bs q = Errs-refuse (reference-Errs bs) q
