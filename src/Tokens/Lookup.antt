-- ===== src/Tokens/Lookup.antt =====
-- Which token src/token/dynamic_token_info.c and src/token/token_db.c find, and what
-- src/handler/provide_token_info.c stores.
use ledger_hardmail_app.Common.{
  if◌then◌else◌, ℕ, zero, suc, ◌≤◌, ◌≡◌, length-take, refl, ap, subst, Bool, true, List, [], ◌∷◌,
  ◌++◌, some, arith, length, take, ◌==◌, ==_refl, replicate, Bool-cases, Option-cases, inl, inr,
  le→ltb,
}
use ledger_hardmail_app.Sdk.Buffers.{Bytes, Buffer}
use ledger_hardmail_app.Context.{StatusWord, swo_success, sw_invalid_dynamic_token}
use ledger_hardmail_app.Display.{c_string}
use ledger_hardmail_app.Tokens.{
  DynamicTokenInfo, TlvOps, Handler, TuidData, token_address_len, same_bytes, tag_token_address,
  has_tag, validate_coin_type, strncpy, no_buffer, set_token_info, handle_tuid_token_address,
  handler_provide_token_info, init_dynamic_token_storage, get_dynamic_token_info, get_token_info,
  get_hardcoded_token_info, TokenEntry, tokens, find_token,
}

-- What the TLV library documents: a received tag's handler has accepted its value, and a buffer
-- that is taken out has at least the least length asked for.
pub record TlvLaws (tlv : TlvOps) : Type 0 where
  pub handled :
      (tag : ℕ) (h : Handler) (b : Buffer) (t t' : TuidData) (tags : List ℕ)
      → tlv.parse_tlv ((tag, h) ∷ []) b t ≡ some (t', tags)
      → has_tag tag tags ≡ true
      → (d : Buffer) × (t0 : TuidData) × (h d t0 ≡ (true, t'))
  pub long_enough :
      (d : Buffer) (least most : ℕ) (b : Buffer)
      → tlv.get_buffer d least most ≡ some b
      → least ≤ length b.ptr

-- A provided token is stored with a whole address, or the storage is reset.
pub data Stored (tlv : TlvOps) : DynamicTokenInfo × StatusWord → Type 0 where
  kept :
      {stored : DynamicTokenInfo}
      → stored.received ≡ true
      → length stored.address ≡ token_address_len
      → Stored tlv (stored, swo_success)
  reset : Stored tlv (init_dynamic_token_storage tlv, sw_invalid_dynamic_token)

module _ (tlv : TlvOps) (laws : TlvLaws tlv) where
  address_length :
      (d : Buffer) (t t' : TuidData)
      → handle_tuid_token_address tlv d t ≡ (true, t')
      → token_address_len ≤ length t'.token_address_buffer.ptr
  unfolding handle_tuid_token_address
  address_length d t t' e =
      elim (Option-cases (tlv.get_buffer d token_address_len token_address_len)) [
        | inl bad ↦ absurd (ground (arith, rw (bad, handle_tuid_token_address) at e))
        | inr (b, found) ↦
            subst (λ (x : TuidData). token_address_len ≤ length x.token_address_buffer.ptr)
              (ap (λ (x : Bool × TuidData). x.1) (rw (found, handle_tuid_token_address) at e))
              (laws.long_enough d token_address_len token_address_len b found)
      ]

  set_token_info-Stored :
      (decimals : ℕ) (ticker : Bytes) (b : Buffer)
      → token_address_len ≤ length b.ptr
      → (stored : DynamicTokenInfo) × (set_token_info tlv decimals ticker b ≡ some stored)
        × Stored tlv (stored, swo_success)
  unfolding set_token_info
  set_token_info-Stored decimals ticker b long =
      let stored : DynamicTokenInfo = record {
        received = true;
        address = take token_address_len b.ptr;
        ticker = strncpy ticker tlv.max_ticker_size ++ 0 ∷ [];
        decimals = decimals;
      } in
      (
        stored,
        rw (le→ltb _ token_address_len long) refl,
        kept refl (omega (arith, length-take token_address_len b.ptr)),
      )

  -- Providing a token always returns, with SWO_SUCCESS and a token stored, or with the error and
  -- the storage reset.
  pub handler_provide_token_info-Stored :
      (cdata : Buffer)
      → (r : DynamicTokenInfo × StatusWord) × (handler_provide_token_info tlv cdata ≡ some r)
        × Stored tlv r
  unfolding handler_provide_token_info
  handler_provide_token_info-Stored cdata = elim (Option-cases (tlv.dynamic_descriptor cdata)) [
    | inl bad ↦ (_, rw (bad, handler_provide_token_info) refl, reset)
    | inr (out, found) ↦ elim (Bool-cases (validate_coin_type out.coin_type)) [
      | inr coin ↦ (_, rw (found, coin, handler_provide_token_info) refl, reset)
      | inl coin ↦
          elim (Option-cases (
            tlv.parse_tlv ((tag_token_address, handle_tuid_token_address tlv) ∷ []) out.tuid
              (record { token_address_buffer = no_buffer }))) [
                | inl bad ↦ (_, rw (found, coin, bad, handler_provide_token_info) refl, reset)
                | inr ((t, tags), parsed) ↦ elim (Bool-cases (has_tag tag_token_address tags)) [
                  | inr missing ↦
                      (_, rw (found, coin, parsed, missing, handler_provide_token_info) refl, reset)
                  | inl tag ↦
                      let (d, t0, ok) = laws.handled _ _ _ _ t tags parsed tag in
                      let long = address_length d t0 t ok in
                      let (stored, ran, holds) =
                        set_token_info-Stored out.magnitude out.ticker t.token_address_buffer
                          long in
                      (
                        (stored, swo_success),
                        rw (found, coin, parsed, tag, ran, handler_provide_token_info) refl,
                        holds,
                      )
                ]
              ]
    ]
  ]

same_bytes_refl : (n : ℕ) (bs : Bytes) → n ≤ length bs → same_bytes n bs (take n bs) ≡ true
same_bytes_refl zero bs h = refl
same_bytes_refl (suc n) [] h = elim h [ ]
same_bytes_refl (suc n) (b ∷ bs) h = rw (==_refl b) (same_bytes_refl n bs (omega arith))

c_string-zeros : (k : ℕ) → c_string (replicate k 0 ++ 0 ∷ []) ≡ []
c_string-zeros zero = refl
c_string-zeros (suc k) = refl

-- A string that is cut by `strncpy` and terminated reads back as the cut string.
c_string-strncpy :
    (n k : ℕ) (src : Bytes)
    → c_string ((take n (c_string src) ++ replicate k 0) ++ 0 ∷ []) ≡ take n (c_string src)
c_string-strncpy zero k src = c_string-zeros k
c_string-strncpy (suc n) k [] = c_string-zeros k
c_string-strncpy (suc n) k (c ∷ src) = elim (Bool-cases (c == 0)) [
  | inl e ↦ rw e (c_string-zeros k)
  | inr e ↦ rw e (rw e (ap (◌∷◌ c) (c_string-strncpy n k src)))
]

module _ (tlv : TlvOps) where
  -- A token that was stored is the one found under its address, before any of the built-in ones:
  -- with its decimals and its ticker, cut to the size that the SDK allows.
  pub set_token_info-get_token_info :
      (decimals : ℕ) (ticker : Bytes) (b : Buffer)
      → token_address_len ≤ length b.ptr
      → (stored : DynamicTokenInfo) × (set_token_info tlv decimals ticker b ≡ some stored)
        × (get_token_info stored b.ptr
            ≡ some (record {
              ticker = take tlv.max_ticker_size (c_string ticker);
              decimals = decimals;
            }))
  unfolding set_token_info get_token_info get_dynamic_token_info
  set_token_info-get_token_info decimals ticker b long =
      let stored : DynamicTokenInfo = record {
        received = true;
        address = take token_address_len b.ptr;
        ticker = strncpy ticker tlv.max_ticker_size ++ 0 ∷ [];
        decimals = decimals;
      } in
      (
        stored,
        rw (le→ltb _ token_address_len long) refl,
        rw
            (
              same_bytes_refl token_address_len b.ptr long,
              c_string-strncpy tlv.max_ticker_size _ ticker,
            )
            refl,
      )

-- The built-in table, with the stored token, if there is one, in front.
abbrev pub all_tokens : DynamicTokenInfo → List TokenEntry
all_tokens stored =
    if stored.received
    then record {
      address = stored.address;
      ticker = c_string stored.ticker;
      decimals = stored.decimals;
    }
      ∷ tokens
    else tokens

-- A lookup finds the first token with the address in the table that has the stored token in front of
-- the built-in ones.
pub get_token_info-find_token :
    (stored : DynamicTokenInfo) (token_address : Bytes)
    → get_token_info stored token_address ≡ find_token (all_tokens stored) token_address
unfolding get_token_info get_dynamic_token_info get_hardcoded_token_info find_token
get_token_info-find_token stored token_address = elim (Bool-cases stored.received) [
  | inr e ↦ rw e refl
  | inl e ↦ elim (Bool-cases (same_bytes token_address_len token_address stored.address)) [
    | inl same ↦ rw (e, same) refl
    | inr other ↦ rw (e, other) refl
  ]
]
