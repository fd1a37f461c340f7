-- ===== src/Address.antt =====
-- src/address.c, src/handler/get_public_key.c, src/ui/nbgl_display_address.c, and the response of
-- src/helper/send_reponse.c that carries the key.
pub mod Answers
pub mod Keys
pub mod Shown
use ledger_hardmail_app.Common.{
  ℕ, ◌+◌, ◌-◌, ◌*◌, ◌%◌, ◌^◌, ◌≡◌, Bool, true, false, not, ◌||◌, List, [], ◌∷◌, ◌++◌, Option, none,
  some, length, ltb, ◌==◌, if◌then◌else◌, slice, take, drop,
}
use ledger_hardmail_app.Sdk.Buffers.{Bytes, Buffer, BufferOps}
use ledger_hardmail_app.Sdk.Crypto.{CryptoOps}
use ledger_hardmail_app.Email.{address_len}
use ledger_hardmail_app.Context.{
  Context, zero_context, state_none, confirm_address, is_state, is_request, raw_public_key,
  chain_code, write_public_key, write_chain_code, pubkey_len, chaincode_len, Reply, respond,
  review_address, send_sw, swo_success, swo_wrong_data_length, swo_conditions_not_satisfied,
  swo_incorrect_data, cx_error,
}

module _ (ops : BufferOps) where
  -- `buffer_read_u8 && buffer_read_bip32_path` into the context, with what a failed read left.
  unfoldable pub read_path : Buffer → Context → Bool × Context
  read_path b c =
      let (ok, n, b1) = ops.read_u8 b in
      if ok
      then (let (ok_path, path, b2) = ops.read_bip32_path b1 n in
          (ok_path, record c { bip32_path_len = n; bip32_path = path }))
      else (false, record c { bip32_path_len = n })

module _ (crypto : CryptoOps) where
  -- `address_from_pubkey`: the output, or false.
  unfoldable pub address_from_pubkey : Bytes → ℕ → Option Bytes
  address_from_pubkey public_key out_len =
      let (error, digest) = crypto.keccak_256 (slice public_key 1 64) in
      if ltb out_len address_len
      then none
      else if not (error == 0)
      then none
      else some (slice digest (32 - address_len) address_len)

  -- `ui_display_address`.
  unfoldable pub ui_display_address : Context → Context × Reply
  ui_display_address c =
      if not (is_request c.req_type confirm_address) || not (is_state c.state state_none)
      then (record c { state = state_none }, send_sw swo_conditions_not_satisfied)
      else elim (address_from_pubkey (raw_public_key c) address_len) [
        | none ↦ (c, send_sw swo_incorrect_data)
        | some address ↦ elim (crypto.format_hex address 43) [
          | none ↦ (c, send_sw swo_incorrect_data)
          | some text ↦ (c, review_address text)
        ]
      ]

-- `helper_send_response_pubkey`.
unfoldable pub helper_send_response_pubkey : Context → Reply
helper_send_response_pubkey c =
    respond (pubkey_len ∷ (raw_public_key c ++ chaincode_len ∷ chain_code c)) swo_success

-- `validate_pubkey`, which the address review calls with the user's choice.
unfoldable pub validate_pubkey : Bool → Context → Reply
validate_pubkey choice c =
    if choice then helper_send_response_pubkey c else send_sw swo_conditions_not_satisfied

module _ (crypto : CryptoOps) where
  -- `handler_get_public_key`, from the derivation on.
  unfoldable pub derive_public_key : Bool → Context → Context × Reply
  derive_public_key display c =
      let (error, key, code) = crypto.get_pubkey c.bip32_path c.bip32_path_len in
      let derived = write_chain_code code (write_public_key key c) in
      let (compress_error, point) = crypto.compress_point (raw_public_key derived) in
      let compressed = write_public_key point derived in
      if not (error == 0)
      then (derived, send_sw (cx_error (error % 2 ^ 16)))
      else if not (compress_error == 0)
      then (compressed, send_sw (cx_error (compress_error % 2 ^ 16)))
      else if display
      then ui_display_address crypto compressed
      else (compressed, helper_send_response_pubkey compressed)

  unfoldable pub handler_get_public_key : BufferOps → Buffer → Bool → Context × Reply
  handler_get_public_key ops cdata display =
      let (ok, c) =
        read_path ops cdata
          (record zero_context { req_type = confirm_address; state = state_none }) in
      if not ok then (c, send_sw swo_wrong_data_length) else derive_public_key display c
