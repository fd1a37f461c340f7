-- ===== src/Common/Slices.antt =====
-- Byte arrays: slices at an offset, and copies into an array at an offset.
use Prim.Native.Nat.{ℕ, zero, suc, ◌+◌, ◌-◌, ◌≤◌, ◌<◌}
use mathlib.Core.Path.{◌≡◌, refl, ap, sym, ◌∙◌}
use mathlib.Core.List.{List, [], ◌∷◌, ◌++◌}
use mathlib.Core.Option.{some}
use native.Mathlib.Omega.{arith}
use ledger_hardmail_app.Common.Lists.{length, take, drop, get_elem?, length-take, length-drop}

module _ {ℓ} {A : Type ℓ} where
  -- The `n` elements that start at `p`.
  abbrev pub slice : List A → ℕ → ℕ → List A
  slice xs p n = take n (drop p xs)

  -- `memmove (out + p, src, length src)`; what would fall behind the end of `out` is lost.
  abbrev pub write_at : List A → ℕ → List A → List A
  write_at [] p src = []
  write_at (x ∷ xs) zero [] = x ∷ xs
  write_at (x ∷ xs) zero (s ∷ ss) = s ∷ write_at xs zero ss
  write_at (x ∷ xs) (suc p) src = x ∷ write_at xs p src

  pub take_all : (n : ℕ) (xs : List A) → length xs ≤ n → take n xs ≡ xs
  take_all zero [] h = refl
  take_all zero (x ∷ xs) h = elim h [ ]
  take_all (suc n) [] h = refl
  take_all (suc n) (x ∷ xs) h = ap (◌∷◌ x) (take_all n xs (omega arith))

  drop-nil : (n : ℕ) → drop {A = A} n [] ≡ []
  drop-nil zero = refl
  drop-nil (suc n) = refl

  take-nil : (n : ℕ) → take {A = A} n [] ≡ []
  take-nil zero = refl
  take-nil (suc n) = refl

  drop_all : (n : ℕ) (xs : List A) → length xs ≤ n → drop n xs ≡ []
  drop_all n [] h = drop-nil n
  drop_all zero (x ∷ xs) h = elim h [ ]
  drop_all (suc n) (x ∷ xs) h = drop_all n xs (omega arith)

  drop_index : {m n : ℕ} (xs : List A) → m ≡ n → drop m xs ≡ drop n xs
  drop_index xs e = ap (λ k. drop k xs) e

  pub drop-drop : (m n : ℕ) (xs : List A) → drop m (drop n xs) ≡ drop (n + m) xs
  drop-drop m zero xs = drop_index xs (omega arith)
  drop-drop m (suc n) [] = drop-nil m ∙ sym (drop-nil (suc n + m))
  drop-drop m (suc n) (x ∷ xs) =
      drop-drop m n xs ∙ drop_index {m = suc (n + m)} {n = suc n + m} (x ∷ xs) (omega arith)

  pub take-append : (n : ℕ) (xs ys : List A) → n ≡ length xs → take n (xs ++ ys) ≡ xs
  take-append zero [] ys e = refl
  take-append zero (x ∷ xs) ys e = absurd (omega arith)
  take-append (suc n) [] ys e = absurd (omega arith)
  take-append (suc n) (x ∷ xs) ys e = ap (◌∷◌ x) (take-append n xs ys (omega arith))

  pub drop-append : (n : ℕ) (xs ys : List A) → n ≡ length xs → drop n (xs ++ ys) ≡ ys
  drop-append zero [] ys e = refl
  drop-append zero (x ∷ xs) ys e = absurd (omega arith)
  drop-append (suc n) [] ys e = absurd (omega arith)
  drop-append (suc n) (x ∷ xs) ys e = drop-append n xs ys (omega arith)

  drop-append_le : (n : ℕ) (xs ys : List A) → n ≤ length xs → drop n (xs ++ ys) ≡ drop n xs ++ ys
  drop-append_le zero xs ys h = refl
  drop-append_le (suc n) [] ys h = elim h [ ]
  drop-append_le (suc n) (x ∷ xs) ys h = drop-append_le n xs ys (omega arith)

  take-append_le : (n : ℕ) (xs ys : List A) → n ≤ length xs → take n (xs ++ ys) ≡ take n xs
  take-append_le zero xs ys h = refl
  take-append_le (suc n) [] ys h = elim h [ ]
  take-append_le (suc n) (x ∷ xs) ys h = ap (◌∷◌ x) (take-append_le n xs ys (omega arith))

  take_index : {m n : ℕ} (xs : List A) → m ≡ n → take m xs ≡ take n xs
  take_index xs e = ap (λ k. take k xs) e

  pub drop-take : (m n : ℕ) (xs : List A) → drop m (take n xs) ≡ take (n - m) (drop m xs)
  drop-take zero n xs = take_index xs (omega arith)
  drop-take (suc m) zero xs =
      sym (take_index {m = zero - suc m} {n = zero} (drop (suc m) xs) (omega arith))
  drop-take (suc m) (suc n) [] = sym (take-nil (suc n - suc m))
  drop-take (suc m) (suc n) (x ∷ xs) = drop-take m n xs ∙ take_index (drop m xs) (omega arith)

  pub take-take : (m n : ℕ) (xs : List A) → m ≤ n → take m (take n xs) ≡ take m xs
  take-take zero n xs h = refl
  take-take (suc m) zero xs h = elim h [ ]
  take-take (suc m) (suc n) [] h = refl
  take-take (suc m) (suc n) (x ∷ xs) h = ap (◌∷◌ x) (take-take m n xs (omega arith))

  -- A slice that lies within the first `n` elements.
  pub slice-take : (xs : List A) (p k n : ℕ) → p + k ≤ n → slice (take n xs) p k ≡ slice xs p k
  slice-take xs p k n h =
      ap (take k) (drop-take p n xs) ∙ take-take k (n - p) (drop p xs) (omega arith)

  pub length-slice : (xs : List A) (p n : ℕ) → p + n ≤ length xs → length (slice xs p n) ≡ n
  length-slice xs p n h = omega (arith, length-take n (drop p xs), length-drop p xs)

  get_elem?-drop : (p : ℕ) (xs : List A) → get_elem? (drop p xs) 0 ≡ get_elem? xs p
  get_elem?-drop zero xs = refl
  get_elem?-drop (suc p) [] = refl
  get_elem?-drop (suc p) (x ∷ xs) = get_elem?-drop p xs

  -- Where the array has an element at `p`, what is left there begins with it.
  pub drop-lt-cons :
      (p : ℕ) (xs : List A)
      → p < length xs
      → (x : A) × (get_elem? xs p ≡ some x) × (drop p xs ≡ x ∷ drop (suc p) xs)
  drop-lt-cons p [] h = elim h [ ]
  drop-lt-cons zero (x ∷ xs) h = (x, refl, refl)
  drop-lt-cons (suc p) (x ∷ xs) h = drop-lt-cons p xs (omega arith)

  write_at_index : {m n : ℕ} (out src : List A) → m ≡ n → write_at out m src ≡ write_at out n src
  write_at_index out src e = ap (λ k. write_at out k src) e

  pub length-write_at :
      (out : List A) (p : ℕ) (src : List A) → length (write_at out p src) ≡ length out
  length-write_at [] p src = refl
  length-write_at (x ∷ xs) zero [] = refl
  length-write_at (x ∷ xs) zero (s ∷ ss) = ap suc (length-write_at xs zero ss)
  length-write_at (x ∷ xs) (suc p) src = ap suc (length-write_at xs p src)

  pub take-write_at :
      (out : List A) (p : ℕ) (src : List A)
      → p + length src ≤ length out
      → take (p + length src) (write_at out p src) ≡ take p out ++ src
  take-write_at [] zero [] h = refl
  take-write_at [] zero (s ∷ ss) h = absurd (omega arith)
  take-write_at [] (suc p) src h = absurd (omega arith)
  take-write_at (x ∷ xs) zero [] h = refl
  take-write_at (x ∷ xs) zero (s ∷ ss) h =
      take_index {m = 0 + suc (length ss)} {n = suc (0 + length ss)} _ (omega arith)
      ∙ ap (◌∷◌ s) (take-write_at xs zero ss (omega arith))
  take-write_at (x ∷ xs) (suc p) src h =
      take_index {m = suc p + length src} {n = suc (p + length src)} _ (omega arith)
      ∙ ap (◌∷◌ x) (take-write_at xs p src (omega arith))

  drop-write_at :
      (out : List A) (p : ℕ) (src : List A)
      → drop (p + length src) (write_at out p src) ≡ drop (p + length src) out
  drop-write_at [] p src = refl
  drop-write_at (x ∷ xs) zero [] = refl
  drop-write_at (x ∷ xs) zero (s ∷ ss) =
      drop_index {m = 0 + suc (length ss)} {n = suc (0 + length ss)} _ (omega arith)
      ∙ drop-write_at xs zero ss
      ∙ drop_index {m = suc (0 + length ss)} {n = 0 + suc (length ss)} (x ∷ xs) (omega arith)
  drop-write_at (x ∷ xs) (suc p) src =
      drop_index {m = suc p + length src} {n = suc (p + length src)} _ (omega arith)
      ∙ drop-write_at xs p src
      ∙ drop_index {m = suc (p + length src)} {n = suc p + length src} (x ∷ xs) (omega arith)

  -- Two copies, the second where the first ends, are one.
  pub write_at-append :
      (out : List A) (p : ℕ) (a b : List A)
      → write_at (write_at out p a) (p + length a) b ≡ write_at out p (a ++ b)
  write_at-append [] p a b = refl
  write_at-append (x ∷ xs) zero [] b = refl
  write_at-append (x ∷ xs) zero (s ∷ ss) b =
      write_at_index {m = 0 + suc (length ss)} {n = suc (0 + length ss)}
        (write_at (x ∷ xs) 0 (s ∷ ss)) b (omega arith)
      ∙ ap (◌∷◌ s) (write_at-append xs zero ss b)
  write_at-append (x ∷ xs) (suc p) a b =
      write_at_index {m = suc p + length a} {n = suc (p + length a)} (write_at (x ∷ xs) (suc p) a) b
        (omega arith)
      ∙ ap (◌∷◌ x) (write_at-append xs p a b)

  -- A copy to the start of an array.
  pub take-write_at_start :
      (out src : List A) → length src ≤ length out → take (length src) (write_at out 0 src) ≡ src
  take-write_at_start out src h =
      let k : length src ≡ 0 + length src = omega arith in
      ap (λ n. take n (write_at out 0 src)) k ∙ take-write_at out 0 src (omega arith)

  pub drop-write_at_start :
      (out src : List A) → drop (length src) (write_at out 0 src) ≡ drop (length src) out
  drop-write_at_start out src =
      let k : length src ≡ 0 + length src = omega arith in
      ap (λ n. drop n (write_at out 0 src)) k
      ∙ drop-write_at out 0 src
      ∙ ap (λ n. drop n out) (sym k)
