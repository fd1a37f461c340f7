-- ===== src/Address/Shown.antt =====
-- The review of a key's address: src/handler/get_public_key.c and src/ui/nbgl_display_address.c.
use ledger_hardmail_app.Common.{
  ℕ, ◌-◌, ◌≤◌, ◌≡◌, refl, ap, ◌%◌, ◌^◌, Bool, true, false, not, ◌||◌, List, none, some, arith,
  length, drop, slice, length-take, ◌==◌, if◌then◌else◌, Bool-cases, Option-cases, inl, inr,
  some_eq, ==_iff,
}
use ledger_hardmail_app.Sdk.Buffers.{Bytes}
use ledger_hardmail_app.Sdk.Crypto.{CryptoOps, HexLaw, KeyLaw, hex}
use ledger_hardmail_app.Email.{address_len}
use ledger_hardmail_app.Context.{
  Context, max_transaction_len, state_none, confirm_address, is_request, is_state, raw_public_key,
  write_public_key, write_chain_code, Reply, review_address, send_sw, swo_incorrect_data, cx_error,
}
use ledger_hardmail_app.Address.{
  address_from_pubkey, ui_display_address, derive_public_key, helper_send_response_pubkey,
}
use ledger_hardmail_app.Address.Keys.{key_answer, compressed_lem}

-- The review of a key's address, or the error.
abbrev pub key_review : CryptoOps → List ℕ → ℕ → Reply
key_review crypto path n =
    let (error, key, code) = crypto.get_pubkey path n in
    let (compress_error, point) = crypto.compress_point key in
    if not (error == 0)
    then send_sw (cx_error (error % 2 ^ 16))
    else if not (compress_error == 0)
    then send_sw (cx_error (compress_error % 2 ^ 16))
    else elim (address_from_pubkey crypto point address_len) [
      | none ↦ send_sw swo_incorrect_data
      | some address ↦ review_address (hex address)
    ]

abbrev pub is_address : Reply → Bool
is_address (review_address text) = true
is_address _ = false

pub address_from_pubkey_le :
    (crypto : CryptoOps) (public_key address : Bytes)
    → address_from_pubkey crypto public_key address_len ≡ some address
    → length address ≤ address_len
unfolding address_from_pubkey
address_from_pubkey_le crypto public_key address h =
    let (error, digest) = crypto.keccak_256 (slice public_key 1 64) in
    elim (Bool-cases (error == 0)) [
      | inl e ↦
          let same = some_eq _ _ (rw e at h) in
          omega (arith, ap length same, length-take address_len (drop (32 - address_len) digest))
      | inr e ↦ absurd (ground (arith, rw e at h))
    ]

-- What a request for a key leaves of the context.
pub record SameRequest (c c' : Context) : Type 0 where
  pub same_len : c'.tx_info.raw_tx_len ≡ c.tx_info.raw_tx_len
  pub same_request : c'.req_type ≡ c.req_type
  pub same_path : c'.bip32_path ≡ c.bip32_path
  pub same_path_len : c'.bip32_path_len ≡ c.bip32_path_len

data KeepsRequest (c : Context) : Context × Reply → Type 0 where
  keeps : {c' : Context} {reply : Reply} → SameRequest c c' → KeepsRequest c (c', reply)

if-KeepsRequest :
    {c : Context} (b : Bool) {x y : Context × Reply}
    → KeepsRequest c x
    → KeepsRequest c y
    → KeepsRequest c (if b then x else y)
if-KeepsRequest true h k = h
if-KeepsRequest false h k = k

of_KeepsRequest : {c : Context} (r : Context × Reply) → KeepsRequest c r → SameRequest c r.0
of_KeepsRequest r (keeps h) = h

module _ (crypto : CryptoOps) (hexes : HexLaw crypto) where
  -- The display of a key's address, in a context that asks for it.
  ui_display_address-shows :
      (c : Context)
      → c.req_type ≡ confirm_address
      → c.state ≡ state_none
      → ui_display_address crypto c ≡ (
        c,
        elim (address_from_pubkey crypto (raw_public_key c) address_len) [
          | none ↦ send_sw swo_incorrect_data
          | some address ↦ review_address (hex address)
        ],
      )
  unfolding ui_display_address
  ui_display_address-shows c req state =
      let asked : (not (is_request c.req_type confirm_address) || not (is_state c.state state_none))
          ≡ false =
        rw (req, state) refl in
      elim (Option-cases (address_from_pubkey crypto (raw_public_key c) address_len)) [
        | inl e ↦ rw (asked, e) refl
        | inr (address, e) ↦
            rw
              (
                asked,
                e,
                hexes.format_hex_done address 43
                    (omega (arith, address_from_pubkey_le crypto (raw_public_key c) address e)),
              )
              refl
      ]

  -- A key that is shown: the review is of its address, and the answer to an approval is the key's.
  module _ (keys : KeyLaw crypto) where
    pub derive_public_key-shows :
        (c : Context)
        → length c.tx_info.raw_tx ≡ max_transaction_len
        → c.req_type ≡ confirm_address
        → c.state ≡ state_none
        → let r = derive_public_key crypto true c in
          (r.1 ≡ key_review crypto c.bip32_path c.bip32_path_len)
          × (is_address r.1 ≡ true
              → helper_send_response_pubkey r.0 ≡ key_answer crypto c.bip32_path c.bip32_path_len)
    unfolding derive_public_key helper_send_response_pubkey
    derive_public_key-shows c size req state =
        let (error, key, code) = crypto.get_pubkey c.bip32_path c.bip32_path_len in
        elim (Bool-cases (error == 0)) [
          | inr e ↦ (rw e refl, λ shown. absurd (ground (arith, rw e at shown)))
          | inl e ↦
              let (held, first, second) =
                compressed_lem crypto keys c size ((==_iff error 0).0 e) in
              let compressed =
                write_public_key (crypto.compress_point key).1
                  (write_chain_code code (write_public_key key c)) in
              elim (Bool-cases ((crypto.compress_point key).0 == 0)) [
                | inr k ↦ (
                  rw (e, held, k) refl,
                  λ shown. absurd (ground (arith, rw (e, held, k) at shown)),
                )
                | inl k ↦
                    let shows = ui_display_address-shows compressed req state in
                    (
                      rw (e, held, k, shows, first) refl,
                      λ _. rw (e, held, k, shows, first, second) refl,
                    )
              ]
        ]

module _ (crypto : CryptoOps) where
  ui_display_address-KeepsRequest :
      (c c' : Context) → SameRequest c c' → KeepsRequest c (ui_display_address crypto c')
  unfolding ui_display_address
  ui_display_address-KeepsRequest c c' h =
      if-KeepsRequest
        (not (is_request c'.req_type confirm_address) || not (is_state c'.state state_none))
        (keeps (record {
          same_len = h.same_len;
          same_request = h.same_request;
          same_path = h.same_path;
          same_path_len = h.same_path_len;
        }))
        (elim (Option-cases (address_from_pubkey crypto (raw_public_key c') address_len)) [
          | inl e ↦ rw e (keeps h)
          | inr (address, e) ↦ elim (Option-cases (crypto.format_hex address 43)) [
            | inl k ↦ rw (e, k) (keeps h)
            | inr (text, k) ↦ rw (e, k) (keeps h)
          ]
        ])

  pub derive_public_key-SameRequest :
      (display : Bool) (c : Context) → SameRequest c (derive_public_key crypto display c).0
  unfolding derive_public_key
  derive_public_key-SameRequest display c =
      let (error, key, code) = crypto.get_pubkey c.bip32_path c.bip32_path_len in
      let derived = write_chain_code code (write_public_key key c) in
      let (compress_error, point) = crypto.compress_point (raw_public_key derived) in
      let compressed = write_public_key point derived in
      let kept1 : SameRequest c derived = record {
        same_len = refl;
        same_request = refl;
        same_path = refl;
        same_path_len = refl;
      } in
      let kept2 : SameRequest c compressed = record {
        same_len = refl;
        same_request = refl;
        same_path = refl;
        same_path_len = refl;
      } in
      of_KeepsRequest (derive_public_key crypto display c) (
        if-KeepsRequest (not (error == 0)) (keeps kept1) (
          if-KeepsRequest (not (compress_error == 0)) (keeps kept2) (
            if-KeepsRequest display (ui_display_address-KeepsRequest c compressed kept2)
              (keeps kept2))))
