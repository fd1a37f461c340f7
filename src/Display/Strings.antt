-- ===== src/Display/Strings.antt =====
-- The arrays and numbers that src/ui/nbgl_display_transaction.c prints, as C strings.
use ledger_hardmail_app.Common.{
  ℕ, ◌+◌, ◌-◌, ◌<◌, ◌≡◌, refl, sym, ap, ◌∙◌, Bool, true, false, [], ◌∷◌, ◌++◌, append_assoc, some,
  arith, length, take, drop, ltb, leb, ◌==◌, if◌then◌else◌, write_at, length-append,
  take-append-drop, take-write_at_start, write_at-append,
}
use ledger_hardmail_app.Sdk.Buffers.{Bytes}
use ledger_hardmail_app.Email.{Ptr, null, at}
use ledger_hardmail_app.Context.{zero_bytes, length-zero_bytes}
use ledger_hardmail_app.Wire.{is_text, all_text, IsText}
use ledger_hardmail_app.Parser.View.{load, InMemory, length-load}
use ledger_hardmail_app.Display.{c_string, read_mem, copy_field}

not_zero : (nl : Bool) (c : ℕ) → is_text nl c ≡ true → (c == 0) ≡ false
not_zero nl c h = ground arith

-- A printable text is a whole C string.
c_string-append : (nl : Bool) (cs r : Bytes) → all_text nl cs ≡ true → c_string (cs ++ 0 ∷ r) ≡ cs
c_string-append nl [] r h = refl
c_string-append nl (c ∷ cs) r h =
    let head : is_text nl c ≡ true = ground (arith, h) in
    let tail : all_text nl cs ≡ true = ground (arith, h) in
    rw (not_zero nl c head) (ap (◌∷◌ c) (c_string-append nl cs r tail))

pub read_mem-load :
    (mem : Bytes) (p : Ptr) (n : ℕ) → InMemory mem p n → read_mem mem p n ≡ some (load mem p n)
read_mem-load mem null n h = elim h [ ]
read_mem-load mem (at p) n h = let e : leb (p + n) (length mem) ≡ true = ground arith in rw e refl

-- A text that is copied to the start of a larger array of zeros, with a terminator, is the C
-- string there.
copied :
    (nl : Bool) (cs : Bytes) (size : ℕ)
    → all_text nl cs ≡ true
    → length cs < size
    → c_string (write_at (write_at (zero_bytes size) 0 cs) (length cs) (0 ∷ [])) ≡ cs
copied nl cs size h fits =
    let src = cs ++ 0 ∷ [] in
    let arr = write_at (zero_bytes size) 0 src in
    let joined : write_at (write_at (zero_bytes size) 0 cs) (length cs) (0 ∷ []) ≡ arr =
      ap (λ k. write_at (write_at (zero_bytes size) 0 cs) k (0 ∷ [])) (omega arith)
      ∙ write_at-append (zero_bytes size) 0 cs (0 ∷ []) in
    let start : take (length src) arr ≡ src =
      take-write_at_start (zero_bytes size) src
        (omega (arith, length-append cs (0 ∷ []), length-zero_bytes size)) in
    let whole : arr ≡ cs ++ 0 ∷ drop (length src) arr =
      sym (take-append-drop (length src) arr)
      ∙ ap (λ xs. xs ++ drop (length src) arr) start
      ∙ append_assoc cs (0 ∷ []) (drop (length src) arr) in
    ap c_string (joined ∙ whole) ∙ c_string-append nl cs _ h

-- `copy_field` of a text that fits shows the whole text.
pub copy_field-IsText :
    (nl : Bool) (bound : ℕ) (mem : Bytes) (p : Ptr) (len : ℕ)
    → InMemory mem p len
    → IsText nl bound (load mem p len)
    → (arr : Bytes) × (copy_field (bound + 1) mem p len ≡ some arr)
      × (c_string arr ≡ load mem p len)
unfolding copy_field
copy_field-IsText nl bound mem p len held t =
    let n : length (load mem p len) ≡ len = length-load mem p len held in
    let clipped : (if ltb len (bound + 1 - 1) then len else bound + 1 - 1) ≡ len =
      ground (arith, n, t.bounded) in
    let arr =
      λ (k : ℕ). write_at (write_at (zero_bytes (bound + 1)) 0 (load mem p len)) k (0 ∷ []) in
    let shown = copied nl (load mem p len) (bound + 1) t.printable (omega (arith, t.bounded)) in
    (
      arr len,
      rw (clipped, read_mem-load mem p len held) refl,
      ap (λ k. c_string (arr k)) (sym n) ∙ shown,
    )
