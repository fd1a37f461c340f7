-- ===== src/Sign/Chunks.antt =====
-- How `accumulate_transaction_data` of src/handler/sign_tx.c gathers the payload.
use ledger_hardmail_app.Common.{
  ◌+◌, ◌≤◌, ◌<◌, ◌≡◌, refl, sym, ap, subst, ◌∙◌, true, false, [], ◌∷◌, ◌++◌, arith, length, take,
  ltb, write_at, length-write_at, take-write_at, Bool-cases, inl, inr, ltb→le, ltb→lt, le→ltb,
  lt→ltb,
}
use ledger_hardmail_app.Sdk.Buffers.{Bytes, Buffer, IsBuffer, rest, BufferOps, BufferLaws}
use ledger_hardmail_app.Parser.Primitives.{length-rest}
use ledger_hardmail_app.Wire.{AllBytes}
use ledger_hardmail_app.Context.{
  Context, TxInfo, RequestType, is_request, max_transaction_len, max_der_sig_len, zero_context,
  length-zero_bytes, StatusWord, swo_success, swo_wrong_data_length, swo_conditions_not_satisfied,
}
use ledger_hardmail_app.Sign.{payload, accumulate_transaction_data}

-- The arrays have their sizes, and what was received is within `raw_tx` and is bytes.
pub record IsContext (c : Context) : Type 0 where
  pub raw_size : length c.tx_info.raw_tx ≡ max_transaction_len
  pub raw_fits : c.tx_info.raw_tx_len ≤ max_transaction_len
  pub raw_bytes : AllBytes (payload c)
  pub signature_size : length c.tx_info.signature ≡ max_der_sig_len

pub zero_context-IsContext : IsContext zero_context
zero_context-IsContext = record {
  raw_size = length-zero_bytes max_transaction_len;
  raw_fits = omega arith;
  raw_bytes = tt;
  signature_size = length-zero_bytes max_der_sig_len;
}

-- Well-formedness is of the `tx_info` alone.
pub IsContext-tx_info : (c c' : Context) → c.tx_info ≡ c'.tx_info → IsContext c → IsContext c'
IsContext-tx_info c c' e h = record {
  raw_size = subst (λ (t : TxInfo). length t.raw_tx ≡ max_transaction_len) e h.raw_size;
  raw_fits = subst (λ (t : TxInfo). t.raw_tx_len ≤ max_transaction_len) e h.raw_fits;
  raw_bytes = subst (λ (t : TxInfo). AllBytes (take t.raw_tx_len t.raw_tx)) e h.raw_bytes;
  signature_size = subst (λ (t : TxInfo). length t.signature ≡ max_der_sig_len) e h.signature_size;
}

AllBytes-append : (xs ys : Bytes) → AllBytes xs → AllBytes ys → AllBytes (xs ++ ys)
AllBytes-append [] ys h k = k
AllBytes-append (x ∷ xs) ys (hx, h) k = (hx, AllBytes-append xs ys h k)

-- What a chunk of a request leads to, on every branch.
pub data Received (req_type : RequestType) (cdata : Buffer) (c : Context)
    : Context × StatusWord → Type 0 where
  other_request :
      is_request c.req_type req_type ≡ false
      → Received req_type cdata c (c, swo_conditions_not_satisfied)
  too_long :
      is_request c.req_type req_type ≡ true
      → max_transaction_len < c.tx_info.raw_tx_len + cdata.size
      → Received req_type cdata c (c, swo_wrong_data_length)
  taken :
      {c' : Context}
      → is_request c.req_type req_type ≡ true
      → c.tx_info.raw_tx_len + cdata.size ≤ max_transaction_len
      → payload c' ≡ payload c ++ rest cdata
      → c'.tx_info.raw_tx_len ≡ c.tx_info.raw_tx_len + cdata.size
      → c'.req_type ≡ c.req_type
      → IsContext c'
      → Received req_type cdata c (c', swo_success)

module _ (ops : BufferOps) (laws : BufferLaws ops) where
  -- The context with a chunk behind what it has.
  abbrev extended : Buffer → Context → Context
  extended cdata c = record c {
    tx_info = record (c.tx_info) {
      raw_tx = write_at c.tx_info.raw_tx c.tx_info.raw_tx_len (ops.move cdata cdata.size).1;
      raw_tx_len = c.tx_info.raw_tx_len + cdata.size;
    };
  }

  -- A chunk of a request of the same type that fits is put behind the chunks before it, and the
  -- context stays well-formed.
  pub accumulate_transaction_data-append :
      (cdata : Buffer) (req_type : RequestType) (c : Context)
      → IsContext c
      → IsBuffer cdata
      → cdata.offset ≡ 0
      → AllBytes (rest cdata)
      → is_request c.req_type req_type ≡ true
      → c.tx_info.raw_tx_len + cdata.size ≤ max_transaction_len
      → (c' : Context) × (accumulate_transaction_data ops cdata req_type c ≡ (c', swo_success))
        × (payload c' ≡ payload c ++ rest cdata)
        × (c'.tx_info.raw_tx_len ≡ c.tx_info.raw_tx_len + cdata.size)
        × (c'.req_type ≡ c.req_type)
        × IsContext c'
  unfolding accumulate_transaction_data
  accumulate_transaction_data-append cdata req_type c h b z all same fits =
      let n : length (rest cdata) ≡ cdata.size = omega (arith, length-rest cdata b) in
      let moved = laws.move_done cdata cdata.size b (omega arith) in
      let bytes = laws.move_bytes cdata cdata.size moved in
      let within = le→ltb max_transaction_len (c.tx_info.raw_tx_len + cdata.size) fits in
      let room : c.tx_info.raw_tx_len + length (rest cdata) ≤ length c.tx_info.raw_tx =
        omega (arith, h.raw_size) in
      let joined : payload (extended cdata c) ≡ payload c ++ rest cdata =
        ap
          (λ bs.
            take (c.tx_info.raw_tx_len + cdata.size)
              (write_at c.tx_info.raw_tx c.tx_info.raw_tx_len bs))
          bytes
        ∙ ap
            (λ k.
              take (c.tx_info.raw_tx_len + k)
                (write_at c.tx_info.raw_tx c.tx_info.raw_tx_len (rest cdata)))
            (sym n)
        ∙ take-write_at c.tx_info.raw_tx c.tx_info.raw_tx_len (rest cdata) room in
      (
        extended cdata c,
        rw (same, within, moved) refl,
        joined,
        refl,
        refl,
        record {
          raw_size = length-write_at _ _ _ ∙ h.raw_size;
          raw_fits = fits;
          raw_bytes = rw joined (AllBytes-append _ _ h.raw_bytes all);
          signature_size = h.signature_size;
        },
      )

  -- A chunk of another request is refused, and the context stays as it was.
  accumulate_transaction_data_mismatch :
      (cdata : Buffer) (req_type : RequestType) (c : Context)
      → is_request c.req_type req_type ≡ false
      → accumulate_transaction_data ops cdata req_type c ≡ (c, swo_conditions_not_satisfied)
  unfolding accumulate_transaction_data
  accumulate_transaction_data_mismatch cdata req_type c other = rw other refl

  -- A chunk that would go beyond the limit is refused, and the context stays as it was.
  accumulate_transaction_data_overflow :
      (cdata : Buffer) (req_type : RequestType) (c : Context)
      → is_request c.req_type req_type ≡ true
      → max_transaction_len < c.tx_info.raw_tx_len + cdata.size
      → accumulate_transaction_data ops cdata req_type c ≡ (c, swo_wrong_data_length)
  unfolding accumulate_transaction_data
  accumulate_transaction_data_overflow cdata req_type c same long =
      rw (same, lt→ltb max_transaction_len (c.tx_info.raw_tx_len + cdata.size) long) refl

  -- A chunk of another request is refused with SWO_CONDITIONS_NOT_SATISFIED, and one that goes beyond
  -- the limit with SWO_WRONG_DATA_LENGTH, the context unchanged; any other chunk is put behind the
  -- payload so far, and the context stays well-formed.
  pub accumulate_transaction_data-Received :
      (cdata : Buffer) (req_type : RequestType) (c : Context)
      → IsContext c
      → IsBuffer cdata
      → cdata.offset ≡ 0
      → AllBytes (rest cdata)
      → Received req_type cdata c (accumulate_transaction_data ops cdata req_type c)
  accumulate_transaction_data-Received cdata req_type c h b z all =
      elim (Bool-cases (is_request c.req_type req_type)) [
        | inr e ↦ rw (accumulate_transaction_data_mismatch cdata req_type c e) (other_request e)
        | inl e ↦ elim (Bool-cases (ltb max_transaction_len (c.tx_info.raw_tx_len + cdata.size))) [
          | inl over ↦
              let long = ltb→lt _ _ over in
              rw (accumulate_transaction_data_overflow cdata req_type c e long) (too_long e long)
          | inr within ↦
              let fits = ltb→le _ _ within in
              let (c', ran, joined, len, kept, ok) =
                accumulate_transaction_data-append cdata req_type c h b z all e fits in
              rw ran (taken e fits joined len kept ok)
        ]
      ]
