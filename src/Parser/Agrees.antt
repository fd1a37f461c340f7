-- ===== src/Parser/Agrees.antt =====
-- When an outcome of the parser in src/transaction/deserialize.c and a verdict on the bytes that
-- are left agree, and the rule for a bind.
use ledger_hardmail_app.Common.{◌≡◌}
use ledger_hardmail_app.Sdk.Buffers.{Bytes, IsBuffer, rest}
use ledger_hardmail_app.Email.{Status, Email}
use ledger_hardmail_app.Wire.Reference.{Verdict, accept, refuse}
use ledger_hardmail_app.Parser.{Parser, Outcome, next, stop, fault}

abbrev pub Relation : Type 0 → Type 0 → Type 1
Relation A B = A → Parser → B → Bytes → Type 0

-- Both go on, with related results, or both end with the same status. Nothing agrees with a fault.
pub data Agrees {A B : Type 0} (R : Relation A B) : Outcome A → Verdict B → Type 0 where
  both : {a : A} {s : Parser} {b : B} {r : Bytes} → R a s b r → Agrees R (next a s) (accept b r)
  neither : {e : Status} {s : Parser} → Agrees R (stop e s) (refuse e)

pub >>=-Agrees :
    {A B C D : Type 0} {R : Relation A B} {Q : Relation C D} {o : Outcome A} {v : Verdict B}
    {f : A → Parser → Outcome C} {g : B → Bytes → Verdict D}
    → Agrees R o v
    → ((a : A) (s : Parser) (b : B) (r : Bytes) → R a s b r → Agrees Q (f a s) (g b r))
    → Agrees Q
        (elim o [ next a s ↦ f a s | stop e s ↦ stop e s | fault ↦ fault ])
        (elim v [ accept b r ↦ g b r | refuse e ↦ refuse e ])
>>=-Agrees (both {a} {s} {b} {r} h) k = k a s b r h
>>=-Agrees neither k = neither

pub Agrees-map :
    {A B : Type 0} {R Q : Relation A B} {o : Outcome A} {v : Verdict B}
    → Agrees R o v
    → ((a : A) (s : Parser) (b : B) (r : Bytes) → R a s b r → Q a s b r)
    → Agrees Q o v
Agrees-map (both {a} {s} {b} {r} h) k = both (k a s b r h)
Agrees-map neither k = neither

-- The reference parser returns something made of what it read.
pub Agrees-pure :
    {A B D : Type 0} {R : Relation A B} {Q : Relation A D} {o : Outcome A} {v : Verdict B}
    (h : B → D)
    → Agrees R o v
    → ((a : A) (s : Parser) (b : B) (r : Bytes) → R a s b r → Q a s (h b) r)
    → Agrees Q o (elim v [ accept b r ↦ accept (h b) r | refuse e ↦ refuse e ])
Agrees-pure h (both {a} {s} {b} {r} x) k = both (k a s b r x)
Agrees-pure h neither k = neither

-- What a step did: the buffer stays in the same memory, `r` is left of it, and the email is `tx`.
pub record Step (s s' : Parser) (tx : Email) (r : Bytes) : Type 0 where
  pub ptr_same : s'.buf.ptr ≡ s.buf.ptr
  pub size_same : s'.buf.size ≡ s.buf.size
  pub fits : IsBuffer s'.buf
  pub left : rest s'.buf ≡ r
  pub filled : s'.tx ≡ tx
