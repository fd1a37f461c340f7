-- ===== src/Parser/Primitives.antt =====
-- The reads and seeks of src/transaction/deserialize.c against those of the reference parser.
use ledger_hardmail_app.Common.{
  ℕ, ◌+◌, ◌-◌, ◌≤◌, ◌≡◌, refl, sym, ◌∙◌, Bool, true, false, [], ◌∷◌, inl, inr, arith, length, slice,
  take, drop, ltb, ltb→lt, ltb→le, Bool-cases, length-take, length-drop, drop-drop, slice-take,
}
use ledger_hardmail_app.Sdk.Buffers.{Bytes, Buffer, IsBuffer, rest, advance, BufferOps, BufferLaws}
use ledger_hardmail_app.Email.{Status}
use ledger_hardmail_app.Wire.Reference.{
  Verdict, accept, refuse, bytes, u8, u16_be, u32_be, require as require',
}
use ledger_hardmail_app.Parser.{Parser, Outcome, next, stop, fault, seek_or, value_or, require}
use ledger_hardmail_app.Parser.Agrees.{Agrees, both, neither, Step, Relation}

pub length-rest : (b : Buffer) → IsBuffer b → length (rest b) ≡ b.size - b.offset
length-rest b h = omega (arith, length-drop b.offset (take b.size b.ptr), length-take b.size b.ptr)

pub rest-advance : (b : Buffer) (n : ℕ) → rest (advance b n) ≡ drop n (rest b)
rest-advance b n = sym (drop-drop n b.offset (take b.size b.ptr))

pub advance-IsBuffer :
    (b : Buffer) (n : ℕ) → IsBuffer b → n ≤ length (rest b) → IsBuffer (advance b n)
advance-IsBuffer b n h k = ground (arith, length-rest b h)

pub take-rest :
    (b : Buffer) (n : ℕ)
    → IsBuffer b
    → n ≤ length (rest b)
    → take n (rest b) ≡ slice b.ptr b.offset n
take-rest b n h k = slice-take b.ptr b.offset n b.size (omega (arith, length-rest b h))

module _ (ops : BufferOps) (laws : BufferLaws ops) where
  pub seek_or-Agrees :
      (e : Status) (n : ℕ) (s : Parser) (bs : Bytes)
      → IsBuffer s.buf
      → rest s.buf ≡ bs
      → Agrees
          (λ _ s' cs r.
            Step s s' s.tx r
            × (slice s.buf.ptr s.buf.offset n ≡ cs)
            × (s.buf.offset + n ≤ length s.buf.ptr))
          (seek_or ops e n s)
          (bytes n e bs)
  unfolding bytes
  seek_or-Agrees e n s bs h q = rw (← q) (elim (Bool-cases (ltb (length (rest s.buf)) n)) [
    | inl short ↦ rw (short, laws.seek_cur_short s.buf n h (ltb→lt _ _ short)) neither
    | inr long ↦
        let le = ltb→le _ _ long in
        rw (long, laws.seek_cur_done s.buf n h le)
          (both (
            record {
              ptr_same = refl;
              size_same = refl;
              fits = advance-IsBuffer s.buf n h le;
              left = rest-advance s.buf n;
              filled = refl;
            },
            sym (take-rest s.buf n h le),
            ground (arith, length-rest s.buf h),
          ))
  ])

  -- A number was read, and nothing else changed.
  abbrev pub Value : Parser → ℕ → Parser → ℕ → Bytes → Type 0
  Value s v s' n r = (v ≡ n) × Step s s' s.tx r

  Step-advance :
      (s : Parser) (n : ℕ) (r : Bytes)
      → IsBuffer s.buf
      → n ≤ length (rest s.buf)
      → drop n (rest s.buf) ≡ r
      → Step s (record s { buf = advance s.buf n }) s.tx r
  Step-advance s n r h k e = record {
    ptr_same = refl;
    size_same = refl;
    fits = advance-IsBuffer s.buf n h k;
    left = rest-advance s.buf n ∙ e;
    filled = refl;
  }

  pub u8-Agrees :
      (e : Status) (s : Parser) (bs : Bytes)
      → IsBuffer s.buf
      → rest s.buf ≡ bs
      → Agrees (Value s) (value_or ops e ops.read_u8 s) (u8 e bs)
  unfolding u8
  u8-Agrees e s [] h q = rw (laws.read_u8_short s.buf h q) neither
  u8-Agrees e s (n ∷ bs) h q =
      rw (laws.read_u8_done s.buf n bs h q)
        (both (refl, Step-advance s 1 bs h (rw q (omega arith)) (rw q)))

  pub u16_be-Agrees :
      (e : Status) (s : Parser) (bs : Bytes)
      → IsBuffer s.buf
      → rest s.buf ≡ bs
      → Agrees (Value s) (value_or ops e ops.read_u16_be s) (u16_be e bs)
  unfolding u16_be
  u16_be-Agrees e s [] h q = rw (laws.read_u16_short s.buf h (rw q (omega arith))) neither
  u16_be-Agrees e s (x ∷ []) h q = rw (laws.read_u16_short s.buf h (rw q (omega arith))) neither
  u16_be-Agrees e s (x ∷ y ∷ bs) h q =
      rw (laws.read_u16_done s.buf x y bs h q)
        (both (refl, Step-advance s 2 bs h (rw q (omega arith)) (rw q)))

  pub u32_be-Agrees :
      (e : Status) (s : Parser) (bs : Bytes)
      → IsBuffer s.buf
      → rest s.buf ≡ bs
      → Agrees (Value s) (value_or ops e ops.read_u32_be s) (u32_be e bs)
  unfolding u32_be
  u32_be-Agrees e s [] h q = rw (laws.read_u32_short s.buf h (rw q (omega arith))) neither
  u32_be-Agrees e s (x ∷ []) h q = rw (laws.read_u32_short s.buf h (rw q (omega arith))) neither
  u32_be-Agrees e s (x ∷ y ∷ []) h q = rw (laws.read_u32_short s.buf h (rw q (omega arith))) neither
  u32_be-Agrees e s (x ∷ y ∷ z ∷ []) h q =
      rw (laws.read_u32_short s.buf h (rw q (omega arith))) neither
  u32_be-Agrees e s (x ∷ y ∷ z ∷ w ∷ bs) h q =
      rw (laws.read_u32_done s.buf x y z w bs h q)
        (both (refl, Step-advance s 4 bs h (rw q (omega arith)) (rw q)))

-- The same test on both sides, and what follows where it passes.
pub require-Agrees :
    {C D : Type 0} {Q : Relation C D} (f : Unit {0} → Parser → Outcome C)
    (g : Unit {0} → Bytes → Verdict D) (b : Bool) (e : Status) (s : Parser) (bs : Bytes)
    → (b ≡ true → Agrees Q (f tt s) (g tt bs))
    → Agrees Q
        (elim (require b e s) [ next a s ↦ f a s | stop e s ↦ stop e s | fault ↦ fault ])
        (elim (require' b e bs) [ accept b r ↦ g b r | refuse e ↦ refuse e ])
require-Agrees f g true e s bs h = h refl
require-Agrees f g false e s bs h = neither
