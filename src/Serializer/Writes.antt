-- ===== src/Serializer/Writes.antt =====
-- Each write of src/transaction/serialize.c puts its bytes behind what was written before.
use ledger_hardmail_app.Common.{
  ℕ, ◌+◌, ◌/◌, ◌%◌, ◌≡◌, refl, ◌∙◌, [], ◌∷◌, ◌++◌, arith, length, write_at, write_at-append,
  length-append,
}
use ledger_hardmail_app.Sdk.Buffers.{Bytes}
use ledger_hardmail_app.Email.{Ptr, null, at, Email, challenge_len, att_hash_len}
use ledger_hardmail_app.Parser.View.{load, InMemory, IsInMemory}
use ledger_hardmail_app.Serializer.{Writer, W, ◌>>◌, append, put_mem, put_head, put_attached}

put_mem-load :
    (mem : Bytes) (p : Ptr) (n : ℕ) (w : Writer)
    → InMemory mem p n
    → put_mem mem p n w ≡ append (load mem p n) w
put_mem-load mem null n w h = absurd h
put_mem-load mem (at p) n w h = ground arith

append-append : (a b : Bytes) (w : Writer) → (append a >> append b) w ≡ append (a ++ b) w
append-append a b w = ground (arith, write_at-append w.out w.offset a b, length-append a b)

-- A step that appends is followed by one that appends.
followed :
    {m k : W} {a b : Bytes}
    → ((w : Writer) → m w ≡ append a w)
    → ((w : Writer) → k w ≡ append b w)
    → (w : Writer) → (m >> k) w ≡ append (a ++ b) w
followed {m} {k} {a} {b} hm hk w =
    rw (hm w, ◌>>◌)
      (hk (record { out = write_at w.out w.offset a; offset = w.offset + length a })
        ∙ append-append a b w)

abbrev pub head_bytes : Bytes → Email → Bytes
head_bytes mem tx =
    load mem tx.challenge challenge_len
    ++ tx.from_len % 256 ∷ []
    ++ load mem tx.from tx.from_len
    ++ tx.to_len % 256 ∷ []
    ++ load mem tx.to tx.to_len
    ++ tx.subject_len % 256 ∷ []
    ++ load mem tx.subject tx.subject_len
    ++ tx.body_len / 256 % 256 ∷ []
    ++ tx.body_len % 256 % 256 ∷ []
    ++ load mem tx.body tx.body_len

pub put_head-append :
    (mem : Bytes) (tx : Email) (w : Writer)
    → IsInMemory mem tx
    → put_head mem tx w ≡ append (head_bytes mem tx) w
unfolding put_head
put_head-append mem tx w h =
    followed
      (followed
        (followed
          (followed
            (followed
              (followed
                (followed
                  (followed
                    (followed (λ w. put_mem-load mem tx.challenge challenge_len w h.challenge_in)
                      (λ w. refl))
                    (λ w. put_mem-load mem tx.from tx.from_len w h.from_in))
                  (λ w. refl))
                (λ w. put_mem-load mem tx.to tx.to_len w h.to_in))
              (λ w. refl))
            (λ w. put_mem-load mem tx.subject tx.subject_len w h.subject_in))
          (λ w. refl))
        (λ w. refl))
      (λ w. put_mem-load mem tx.body tx.body_len w h.body_in) w

abbrev pub attached_bytes : Bytes → Email → Bytes
attached_bytes mem tx =
    1 % 256 ∷ []
    ++ tx.att_name_len % 256 ∷ []
    ++ load mem tx.att_name tx.att_name_len
    ++ tx.att_size / 256 / 256 / 256 % 256 ∷ []
    ++ tx.att_size / 256 / 256 % 256 ∷ []
    ++ tx.att_size / 256 % 256 ∷ []
    ++ tx.att_size % 256 ∷ []
    ++ load mem tx.att_hash att_hash_len

pub put_attached-append :
    (mem : Bytes) (tx : Email) (w : Writer)
    → InMemory mem tx.att_name tx.att_name_len
    → InMemory mem tx.att_hash att_hash_len
    → put_attached mem tx w ≡ append (attached_bytes mem tx) w
unfolding put_attached
put_attached-append mem tx w name hash =
    followed
      (followed
        (followed
          (followed
            (followed
              (followed (followed (λ w. refl) (λ w. refl))
                (λ w. put_mem-load mem tx.att_name tx.att_name_len w name))
              (λ w. refl))
            (λ w. refl))
          (λ w. refl))
        (λ w. refl))
      (λ w. put_mem-load mem tx.att_hash att_hash_len w hash) w
