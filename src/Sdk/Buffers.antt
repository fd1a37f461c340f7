-- ===== src/Sdk/Buffers.antt =====
-- `buffer_t` of the SDK's buffer.h and its reading functions, as used by
-- src/transaction/deserialize.c and src/handler/*.c.
use ledger_hardmail_app.Common.{
  ℕ, ◌+◌, ◌*◌, ◌≤◌, ◌<◌, ◌≡◌, Bool, true, false, List, [], ◌∷◌, length, take, drop,
}

abbrev pub Bytes : Type 0
Bytes = List ℕ

-- `ptr` stands for the memory behind the pointer: `size` bytes of it belong to the buffer.
pub record Buffer : Type 0 where
  pub ptr : Bytes
  pub size : ℕ
  pub offset : ℕ

-- The buffer lies in its memory, and the offset in the buffer.
pub record IsBuffer (b : Buffer) : Type 0 where
  pub in_memory : b.size ≤ length b.ptr
  pub in_buffer : b.offset ≤ b.size

-- What is still to be read.
abbrev pub rest : Buffer → Bytes
rest b = drop b.offset (take b.size b.ptr)

abbrev pub advance : Buffer → ℕ → Buffer
advance b n = record b { offset = b.offset + n }

-- Each function returns whether it succeeded, what it wrote to its output, and the buffer after it.
pub record BufferOps : Type 0 where
  pub read_u8 : Buffer → Bool × ℕ × Buffer
  pub read_u16_be : Buffer → Bool × ℕ × Buffer
  pub read_u32_be : Buffer → Bool × ℕ × Buffer
  pub seek_cur : Buffer → ℕ → Bool × Buffer
  pub read_bip32_path : Buffer → ℕ → Bool × List ℕ × Buffer
  pub move : Buffer → ℕ → Bool × Bytes × Buffer

-- What buffer.h documents of them: with enough bytes left they succeed, read big-endian and
-- advance; with too few they return false. A failed read promises nothing else.
pub record BufferLaws (o : BufferOps) : Type 0 where
  pub read_u8_done :
      (b : Buffer) (v : ℕ) (r : Bytes)
      → IsBuffer b
      → rest b ≡ v ∷ r
      → o.read_u8 b ≡ (true, v, advance b 1)
  pub read_u8_short : (b : Buffer) → IsBuffer b → rest b ≡ [] → (o.read_u8 b).0 ≡ false
  pub read_u16_done :
      (b : Buffer) (h l : ℕ) (r : Bytes)
      → IsBuffer b
      → rest b ≡ h ∷ l ∷ r
      → o.read_u16_be b ≡ (true, h * 256 + l, advance b 2)
  pub read_u16_short : (b : Buffer) → IsBuffer b → length (rest b) < 2 → (o.read_u16_be b).0 ≡ false
  pub read_u32_done :
      (b : Buffer) (b3 b2 b1 b0 : ℕ) (r : Bytes)
      → IsBuffer b
      → rest b ≡ b3 ∷ b2 ∷ b1 ∷ b0 ∷ r
      → o.read_u32_be b ≡ (true, ((b3 * 256 + b2) * 256 + b1) * 256 + b0, advance b 4)
  pub read_u32_short : (b : Buffer) → IsBuffer b → length (rest b) < 4 → (o.read_u32_be b).0 ≡ false
  pub seek_cur_done :
      (b : Buffer) (n : ℕ) → IsBuffer b → n ≤ length (rest b) → o.seek_cur b n ≡ (true, advance b n)
  pub seek_cur_short :
      (b : Buffer) (n : ℕ) → IsBuffer b → length (rest b) < n → (o.seek_cur b n).0 ≡ false
  pub move_done : (b : Buffer) (n : ℕ) → IsBuffer b → length (rest b) ≤ n → (o.move b n).0 ≡ true
  pub move_bytes : (b : Buffer) (n : ℕ) → (o.move b n).0 ≡ true → (o.move b n).1 ≡ rest b
