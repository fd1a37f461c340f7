-- ===== src/Serializer/Correct.antt =====
-- `transaction_serialize` of src/transaction/serialize.c writes the encoding of the message that
-- the email stands for, or refuses.
use ledger_hardmail_app.Common.{
  ℕ, ◌+◌, ◌/◌, ◌%◌, ◌^◌, ◌≤◌, ◌<◌, ◌≡◌, ◌∙◌, false, [], ◌++◌, some, arith, length, ltb, ◌==◌, inl,
  inr, write_at, length-append, append_assoc, append-nil, pos, negsuc, Bool-cases, take, drop,
  le→ltb, write_at-append, take-write_at_start, drop-write_at_start, length-write_at, if◌then◌else◌,
  ltb→le, lt→ltb,
}
use ledger_hardmail_app.Sdk.Buffers.{Bytes}
use ledger_hardmail_app.Email.{Email, challenge_len, att_hash_len}
use ledger_hardmail_app.Wire.{encode, put_attachment}
use ledger_hardmail_app.Parser.Widths.{AttachmentWide, IsWide}
use ledger_hardmail_app.Parser.View.{
  length-load, view, view_attachment, InMemory, IsInMemory, AttachmentInMemory,
}
use ledger_hardmail_app.Serializer.{Writer, need, put_tail, transaction_serialize}
use ledger_hardmail_app.Serializer.Writes.{
  put_head-append, put_attached-append, head_bytes, attached_bytes,
}

length-head_bytes :
    (mem : Bytes) (tx : Email) → IsInMemory mem tx → length (head_bytes mem tx) ≡ need tx
length-head_bytes mem tx h = simp length-append (
    omega (
      arith,
      length-load mem tx.challenge challenge_len h.challenge_in,
      length-load mem tx.from tx.from_len h.from_in,
      length-load mem tx.to tx.to_len h.to_in,
      length-load mem tx.subject tx.subject_len h.subject_in,
      length-load mem tx.body tx.body_len h.body_in,
    ))

u8_small : (n : ℕ) → n < 256 → n % 256 ≡ n
u8_small n h = omega arith

u16_high : (n : ℕ) → n < 65536 → n / 256 % 256 ≡ n / 256
u16_high n h = omega arith

u16_low : (n : ℕ) → n % 256 % 256 ≡ n % 256
u16_low n = omega arith

encode-head_bytes :
    (mem : Bytes) (tx : Email)
    → IsInMemory mem tx
    → IsWide tx
    → encode (view mem tx) ≡ head_bytes mem tx ++ put_attachment (view_attachment mem tx) []
unfolding encode
encode-head_bytes mem tx h w = simp (
  append_assoc,
  length-load mem tx.from tx.from_len h.from_in,
  length-load mem tx.to tx.to_len h.to_in,
  length-load mem tx.subject tx.subject_len h.subject_in,
  length-load mem tx.body tx.body_len h.body_in,
  u8_small tx.from_len w.from_u8,
  u8_small tx.to_len w.to_u8,
  u8_small tx.subject_len w.subject_u8,
  u16_high tx.body_len w.body_u16,
  u16_low tx.body_len,
)

encode-attached_bytes :
    (mem : Bytes) (tx : Email)
    → InMemory mem tx.att_name tx.att_name_len
    → tx.att_name_len < 256
    → (tx.has_attachment == 0) ≡ false
    → put_attachment (view_attachment mem tx) [] ≡ attached_bytes mem tx
encode-attached_bytes mem tx h w some_attachment = rw some_attachment (
    simp (
      append_assoc,
      append-nil,
      length-load mem tx.att_name tx.att_name_len h,
      u8_small tx.att_name_len w,
    ))

length-attached_bytes :
    (mem : Bytes) (tx : Email)
    → InMemory mem tx.att_name tx.att_name_len
    → InMemory mem tx.att_hash att_hash_len
    → length (attached_bytes mem tx) ≡ 6 + tx.att_name_len + att_hash_len
length-attached_bytes mem tx h k = simp length-append (
    omega (
      arith,
      length-load mem tx.att_name tx.att_name_len h,
      length-load mem tx.att_hash att_hash_len k,
    ))

attached_of :
    (mem : Bytes) (tx : Email)
    → (tx.has_attachment == 0) ≡ false
    → AttachmentInMemory mem tx
    → InMemory mem tx.att_name tx.att_name_len × InMemory mem tx.att_hash att_hash_len
attached_of mem tx more h = rw more at h

att_name_wide :
    (tx : Email) → (tx.has_attachment == 0) ≡ false → AttachmentWide tx → tx.att_name_len < 256
att_name_wide tx more h = (wide_of tx more h).0
  where
    wide_of :
        (tx : Email)
        → (tx.has_attachment == 0) ≡ false
        → AttachmentWide tx
        → (tx.att_name_len < 256) × (tx.att_size < 2 ^ 32)
    wide_of tx more h = rw more at h

put_tail_lem :
    (mem : Bytes) (tx : Email) (out_len : ℕ) (w : Writer)
    → IsInMemory mem tx
    → IsWide tx
    → let tail = put_attachment (view_attachment mem tx) [] in
      put_tail mem tx out_len w ≡ (
        if ltb out_len (w.offset + length tail)
        then some (negsuc 0, w.out)
        else some (pos (w.offset + length tail), write_at w.out w.offset tail))
unfolding put_tail
put_tail_lem mem tx out_len w h wide = elim (Bool-cases (tx.has_attachment == 0)) [
  | inl bare ↦ rw bare
  | inr more ↦
      let (name, hash) = attached_of mem tx more h.attachment_in in
      let same : w.offset + 1 + 1 + tx.att_name_len + 4 + att_hash_len
          ≡ w.offset + (6 + tx.att_name_len + att_hash_len) =
        omega arith in
      rw (
        encode-attached_bytes mem tx name (att_name_wide tx more wide.attachment_wide) more,
        more,
        put_attached-append mem tx w name hash,
        length-attached_bytes mem tx name hash,
        same,
      )
]

-- As one test and one copy.
serialize_lem :
    (mem : Bytes) (tx : Email) (out : Bytes) (out_len : ℕ)
    → IsInMemory mem tx
    → IsWide tx
    → need tx ≤ out_len
    → transaction_serialize mem tx out out_len ≡ (
        if ltb out_len (length (encode (view mem tx)))
        then some (negsuc 0, write_at out 0 (head_bytes mem tx))
        else some (pos (length (encode (view mem tx))), write_at out 0 (encode (view mem tx))))
unfolding transaction_serialize
serialize_lem mem tx out out_len h wide enough =
    let hd = head_bytes mem tx in
    let tl = put_attachment (view_attachment mem tx) [] in
    let w0 : Writer = record { out = out; offset = 0 } in
    let w1 : Writer = record { out = write_at out 0 hd; offset = 0 + length hd } in
    let all = encode-head_bytes mem tx h wide in
    let len : 0 + length hd + length tl ≡ length (hd ++ tl) = omega (arith, length-append hd tl) in
    let start : transaction_serialize mem tx out out_len ≡ put_tail mem tx out_len w1 =
      rw (le→ltb out_len (need tx) enough, put_head-append mem tx w0 h) in
    start ∙ put_tail_lem mem tx out_len w1 h wide ∙ rw (all, write_at-append out 0 hd tl, len)

need-le-encode :
    (mem : Bytes) (tx : Email)
    → IsInMemory mem tx
    → IsWide tx
    → need tx ≤ length (encode (view mem tx))
need-le-encode mem tx h wide =
    let tl = put_attachment (view_attachment mem tx) [] in
    rw (encode-head_bytes mem tx h wide)
      (omega (arith, length-append (head_bytes mem tx) tl, length-head_bytes mem tx h))

-- An output array that is large enough gets the encoding of the message that the email stands for
-- at its start, and nothing else of it changes; the result is the encoding's length. Nothing is
-- read outside of the memory of the email's fields.
pub transaction_serialize-encode :
    (mem : Bytes) (tx : Email) (out : Bytes)
    → IsInMemory mem tx
    → IsWide tx
    → length (encode (view mem tx)) ≤ length out
    → let bytes = encode (view mem tx) in
      (out' : Bytes) × (transaction_serialize mem tx out (length out)
        ≡ some (pos (length bytes), out'))
      × (take (length bytes) out' ≡ bytes)
      × (drop (length bytes) out' ≡ drop (length bytes) out)
      × (length out' ≡ length out)
transaction_serialize-encode mem tx out h wide fits =
    let bytes = encode (view mem tx) in
    let enough : need tx ≤ length out = omega (arith, need-le-encode mem tx h wide) in
    let ran = serialize_lem mem tx out (length out) h wide enough in
    (
      write_at out 0 bytes,
      ran ∙ rw (le→ltb (length out) (length bytes) fits),
      take-write_at_start out bytes fits,
      drop-write_at_start out bytes,
      length-write_at out 0 bytes,
    )

-- In an output array that is too small for the encoding the result is -1.
pub transaction_serialize_short :
    (mem : Bytes) (tx : Email) (out : Bytes)
    → IsInMemory mem tx
    → IsWide tx
    → length out < length (encode (view mem tx))
    → (out' : Bytes) × (transaction_serialize mem tx out (length out) ≡ some (negsuc 0, out'))
transaction_serialize_short mem tx out h wide short =
    elim (Bool-cases (ltb (length out) (need tx))) [
      | inl tiny ↦ (out, unfold transaction_serialize in rw tiny)
      | inr enough ↦ (
        write_at out 0 (head_bytes mem tx),
        serialize_lem mem tx out (length out) h wide (ltb→le _ _ enough)
            ∙ rw (lt→ltb (length out) (length (encode (view mem tx))) short),
      )
    ]
