-- ===== src/Swap.antt =====
-- src/swap/handle_swap_sign_transaction.c, and the branches of src/handler/sign_tx.c for a transaction
-- that the Exchange app asks for. They are built with HAVE_SWAP.
pub mod Copy
pub mod Text
pub mod Announced
pub mod Promise
pub mod Signing
pub mod Signed
pub mod CheckAddress
pub mod Amount
pub mod Printed
use ledger_hardmail_app.Common.{
  ℕ, ◌+◌, ◌-◌, ◌*◌, ◌≡◌, Bool, true, false, not, ◌&&◌, ◌||◌, List, [], ◌∷◌, ◌++◌, Option, none,
  some, length, ltb, ◌==◌, if◌then◌else◌, take, write_at, ◌>>=◌,
}
use ledger_hardmail_app.Sdk.Buffers.{Bytes, BufferOps}
use ledger_hardmail_app.Sdk.Crypto.{CryptoOps}
use ledger_hardmail_app.Email.{Ptr, address_len}
use ledger_hardmail_app.Context.{Context, zero_context, zero_bytes, Reply, StatusWord}
use ledger_hardmail_app.Display.{codes, c_string, read_mem}
use ledger_hardmail_app.Sign.{process_transaction, is_success}
use ledger_hardmail_app.Validate.{validate_transaction}
use ledger_hardmail_app.Tokens.{TokenInfo, TlvOps, init_dynamic_token_storage}
use ledger_hardmail_app.Dispatcher.{Globals}

-- The SDK's swap helpers: the size of a ticker, `swap_parse_config` with the array of the ticker and
-- the decimals, `swap_str_to_u64`, `format_fpu64` with the array afterwards, the size of a printable
-- amount, and `bip32_derive_get_pubkey_256` on CX_CURVE_256K1.
pub record SwapOps : Type 0 where
  pub max_ticker_size : ℕ
  pub parse_config : Bytes → ℕ → ℕ → Option (Bytes × ℕ)
  pub str_to_u64 : Bytes → ℕ → Option ℕ
  pub format_fpu64 : ℕ → ℕ → ℕ → Bytes
  pub max_printable_amount_size : ℕ
  pub get_pubkey_256k1 : List ℕ → ℕ → ℕ × Bytes × Bytes

abbrev pub exponent_smallest_unit : ℕ
exponent_smallest_unit = 3

-- `strcmp (a, b) == 0`, for strings without their terminators.
abbrev pub same_text : Bytes → Bytes → Bool
same_text [] [] = true
same_text (x ∷ a) (y ∷ b) = x == y && same_text a b
same_text _ _ = false

-- `swap_validated_t`.
pub record SwapValidated : Type 0 where
  pub initialized : Bool
  pub amount : ℕ
  pub fee : ℕ
  pub recipient : Bytes
  pub decimals : ℕ
  pub ticker : Bytes

-- The globals of a swap: G_swap_validated, G_swap_response_ready, and the app's.
pub record SwapGlobals : Type 0 where
  pub validated : SwapValidated
  pub response_ready : Bool
  pub globals : Globals

-- The error codes and details sent to the Exchange app.
pub data SwapError : Type 0 where
  error_generic : SwapError
  error_wrong_amount : SwapError
  error_wrong_token_info : SwapError
  error_wrong_method : SwapError
  error_wrong_fees : SwapError
  error_wrong_destination : SwapError

-- `swap_check_validity` returns true, or sends an error and leaves the app.
pub data Validity : Type 0 where
  matches : Validity
  mismatch : SwapError → Validity

-- How a transaction in a swap ends; every one of these leaves the app.
pub data SwapEnd : Type 0 where
  double_signing : SwapEnd
  swap_error : SwapError → SwapEnd
  signed : Reply → SwapEnd

abbrev pub is_token_swap : SwapValidated → Bool
is_token_swap v =
    not (same_text (c_string v.ticker) (codes "BOL")) || not (v.decimals == exponent_smallest_unit)

-- The check of the token: the error that is sent, if there is one.
unfoldable pub token_mismatch : SwapValidated → Bool → TokenInfo → Option SwapError
token_mismatch v is_token_tx token_info =
    if is_token_tx
    then (if is_token_swap v
        then (if not (same_text (c_string v.ticker) (c_string token_info.ticker))
              || not (v.decimals == token_info.decimals)
            then some error_wrong_token_info
            else none)
        else some error_wrong_method)
    else if is_token_swap v
    then some error_wrong_method
    else none

module _ (crypto : CryptoOps) where
  -- The last check: the text of the destination, which stays empty where `format_hex` fails.
  abbrev pub destination_text : Bytes → Bytes
  destination_text destination = elim (crypto.format_hex destination (2 * address_len + 1)) [
    | none ↦ []
    | some text ↦ text
  ]

  -- `swap_check_validity`, after the check of the token.
  unfoldable pub check_values : SwapValidated → Bytes → ℕ → ℕ → Ptr → Option Validity
  check_values v mem amount fee destination =
      if not (v.amount == amount)
      then some (mismatch error_wrong_amount)
      else if not (v.fee == fee)
      then some (mismatch error_wrong_fees)
      else do
        to ← read_mem mem destination address_len
        some (
            if same_text (c_string v.recipient) (destination_text to)
            then matches
            else mismatch error_wrong_destination)

  -- `swap_check_validity`, for a destination in the payload.
  unfoldable pub swap_check_validity : SwapGlobals → ℕ → ℕ → Ptr → TokenInfo → Option Validity
  swap_check_validity g amount fee destination token_info =
      let info = g.globals.context.tx_info in
      if not g.validated.initialized
      then some (mismatch error_generic)
      else elim (token_mismatch g.validated info.is_token_tx token_info) [
        | some error ↦ some (mismatch error)
        | none ↦ check_values g.validated info.raw_tx amount fee destination
      ]

  -- The end of `check_and_sign_swap_tx`: the user has agreed in the Exchange app.
  unfoldable pub sign_if_matches : SwapGlobals → Validity → Option (SwapGlobals × SwapEnd)
  sign_if_matches g (mismatch error) = some (g, swap_error error)
  sign_if_matches g matches = do
    (c, reply) ← validate_transaction crypto true g.globals.context
    some (record g { globals = record (g.globals) { context = c } }, signed reply)

  -- `check_and_sign_swap_tx`. It reads `value` and `fee` of the transaction, which `email_t` does not have (so a
  -- build with HAVE_SWAP does not compile), and the token that no code sets: they are arguments here.
  unfoldable pub check_and_sign_swap_tx :
      SwapGlobals → ℕ → ℕ → TokenInfo → Option (SwapGlobals × SwapEnd)
  check_and_sign_swap_tx g value fee token_info =
      if g.response_ready
      then some (g, double_signing)
      else (let ready = record g { response_ready = true } in
          do
            validity ←
                swap_check_validity ready value fee g.globals.context.tx_info.transaction.to
                  token_info
            sign_if_matches ready validity)

  -- `handler_sign_tx`, from the last chunk on, called from a swap.
  unfoldable pub finish_swap :
      BufferOps → SwapGlobals → ℕ → ℕ → TokenInfo → Option (SwapGlobals × SwapEnd)
  finish_swap ops g value fee token_info = do
    (c, sw) ← process_transaction ops crypto g.globals.context
    let g1 = record g { globals = record (g.globals) { context = c } } in
        if is_success sw
        then check_and_sign_swap_tx g1 value fee token_info
        else some (g1, swap_error error_generic)
