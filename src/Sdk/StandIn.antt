-- ===== src/Sdk/StandIn.antt =====
-- Concrete functions that meet the laws of the SDK's buffers. The witnesses run on them.
use ledger_hardmail_app.Common.{
  ℕ, zero, suc, ◌+◌, ◌*◌, ◌≤◌, ◌<◌, ◌≡◌, refl, Bool, true, false, ◌||◌, List, [], ◌∷◌, arith,
  length, ltb, lt→ltb, le→ltb, if◌then◌else◌, ◌==◌,
}
use ledger_hardmail_app.Sdk.Buffers.{Bytes, Buffer, rest, advance, BufferOps, BufferLaws}

read_u8_in : Bytes → Buffer → Bool × ℕ × Buffer
read_u8_in [] b = (false, 0, b)
read_u8_in (v ∷ r) b = (true, v, advance b 1)

read_u16_in : Bytes → Buffer → Bool × ℕ × Buffer
read_u16_in (h ∷ l ∷ r) b = (true, h * 256 + l, advance b 2)
read_u16_in _ b = (false, 0, b)

read_u32_in : Bytes → Buffer → Bool × ℕ × Buffer
read_u32_in (b3 ∷ b2 ∷ b1 ∷ b0 ∷ r) b = (true, ((b3 * 256 + b2) * 256 + b1) * 256 + b0, advance b 4)
read_u32_in _ b = (false, 0, b)

seek_in : Bytes → Buffer → ℕ → Bool × Buffer
seek_in bs b n = if ltb (length bs) n then (false, b) else (true, advance b n)

-- Big-endian words.
words : ℕ → Bytes → List ℕ
words zero bs = []
words (suc n) (b3 ∷ b2 ∷ b1 ∷ b0 ∷ r) = (((b3 * 256 + b2) * 256 + b1) * 256 + b0) ∷ words n r
words (suc n) _ = []

path_in : Bytes → Buffer → ℕ → Bool × List ℕ × Buffer
path_in bs b n =
    if n == 0 || ltb 10 n || ltb (length bs) (4 * n)
    then (false, [], b)
    else (true, words n bs, advance b (4 * n))

move_in : Bytes → Buffer → ℕ → Bool × Bytes × Buffer
move_in bs b n = if ltb n (length bs) then (false, [], b) else (true, bs, advance b (length bs))

unfoldable pub stand_in : BufferOps
unfolding read_u8_in read_u16_in read_u32_in seek_in path_in move_in words
stand_in = record {
  read_u8 = λ b. read_u8_in (rest b) b;
  read_u16_be = λ b. read_u16_in (rest b) b;
  read_u32_be = λ b. read_u32_in (rest b) b;
  seek_cur = λ b n. seek_in (rest b) b n;
  read_bip32_path = λ b n. path_in (rest b) b n;
  move = λ b n. move_in (rest b) b n;
}

u8_done :
    (bs : Bytes) (b : Buffer) (v : ℕ) (r : Bytes)
    → bs ≡ v ∷ r
    → read_u8_in bs b ≡ (true, v, advance b 1)
unfolding read_u8_in
u8_done bs b v r e = ground arith

u8_short : (bs : Bytes) (b : Buffer) → bs ≡ [] → (read_u8_in bs b).0 ≡ false
unfolding read_u8_in
u8_short bs b e = ground arith

u16_done :
    (bs : Bytes) (b : Buffer) (h l : ℕ) (r : Bytes)
    → bs ≡ h ∷ l ∷ r
    → read_u16_in bs b ≡ (true, h * 256 + l, advance b 2)
unfolding read_u16_in
u16_done bs b h l r e = ground arith

u16_short : (bs : Bytes) (b : Buffer) → length bs < 2 → (read_u16_in bs b).0 ≡ false
unfolding read_u16_in
u16_short [] b h = refl
u16_short (x ∷ []) b h = refl
u16_short (x ∷ y ∷ r) b h = absurd (omega arith)

u32_done :
    (bs : Bytes) (b : Buffer) (b3 b2 b1 b0 : ℕ) (r : Bytes)
    → bs ≡ b3 ∷ b2 ∷ b1 ∷ b0 ∷ r
    → read_u32_in bs b ≡ (true, ((b3 * 256 + b2) * 256 + b1) * 256 + b0, advance b 4)
unfolding read_u32_in
u32_done bs b b3 b2 b1 b0 r e = ground arith

u32_short : (bs : Bytes) (b : Buffer) → length bs < 4 → (read_u32_in bs b).0 ≡ false
unfolding read_u32_in
u32_short [] b h = refl
u32_short (x ∷ []) b h = refl
u32_short (x ∷ y ∷ []) b h = refl
u32_short (x ∷ y ∷ z ∷ []) b h = refl
u32_short (x ∷ y ∷ z ∷ w ∷ r) b h = absurd (omega arith)

seek_done : (bs : Bytes) (b : Buffer) (n : ℕ) → n ≤ length bs → seek_in bs b n ≡ (true, advance b n)
unfolding seek_in
seek_done bs b n h = rw (le→ltb (length bs) n h)

seek_short : (bs : Bytes) (b : Buffer) (n : ℕ) → length bs < n → (seek_in bs b n).0 ≡ false
unfolding seek_in
seek_short bs b n h = rw (lt→ltb (length bs) n h)

moved : (bs : Bytes) (b : Buffer) (n : ℕ) → length bs ≤ n → (move_in bs b n).0 ≡ true
unfolding move_in
moved bs b n h = rw (le→ltb n (length bs) h)

moved_bytes :
    (bs : Bytes) (b : Buffer) (n : ℕ) → (move_in bs b n).0 ≡ true → (move_in bs b n).1 ≡ bs
unfolding move_in
moved_bytes bs b n h = ground arith

pub stand_in_laws : BufferLaws stand_in
unfolding stand_in
stand_in_laws = record {
  read_u8_done = λ b v r _ e. u8_done (rest b) b v r e;
  read_u8_short = λ b _ e. u8_short (rest b) b e;
  read_u16_done = λ b h l r _ e. u16_done (rest b) b h l r e;
  read_u16_short = λ b _ e. u16_short (rest b) b e;
  read_u32_done = λ b b3 b2 b1 b0 r _ e. u32_done (rest b) b b3 b2 b1 b0 r e;
  read_u32_short = λ b _ e. u32_short (rest b) b e;
  seek_cur_done = λ b n _ e. seek_done (rest b) b n e;
  seek_cur_short = λ b n _ e. seek_short (rest b) b n e;
  move_done = λ b n _ e. moved (rest b) b n e;
  move_bytes = λ b n e. moved_bytes (rest b) b n e;
}
