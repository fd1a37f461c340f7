-- ===== src/Dispatcher/Lengths.antt =====
-- How long the answers of src/handler/get_public_key.c, src/helper/send_reponse.c and src/ui are.
use ledger_hardmail_app.Common.{
  ℕ, ◌≤◌, Bool, true, false, not, ◌||◌, [], ◌∷◌, Option, none, some, arith, length, length-append,
  length-take, take, drop, ltb, ltb→le, ◌%◌, ◌^◌, ◌==◌, if◌then◌else◌, ◌>>=◌, Option-cases,
  Bool-cases, inl, inr,
}
use ledger_hardmail_app.Sdk.Buffers.{Buffer, BufferOps}
use ledger_hardmail_app.Sdk.Crypto.{CryptoOps}
use ledger_hardmail_app.Email.{address_len}
use ledger_hardmail_app.Context.{
  Context, Reply, respond, review, review_address, send_sw, StatusWord, raw_public_key, chain_code,
  write_public_key, write_chain_code, zero_context, cx_error, max_der_sig_len,
  swo_wrong_data_length, is_request, is_state, confirm_address, state_none, state_approved,
  swo_conditions_not_satisfied, swo_security_issue,
}
use ledger_hardmail_app.Address.{
  helper_send_response_pubkey, ui_display_address, address_from_pubkey, derive_public_key,
  handler_get_public_key, read_path,
}
use ledger_hardmail_app.Display.{
  Shown, shown, refused, reply_of, email_pairs, ui_display_transaction,
}
use ledger_hardmail_app.Validate.{
  crypto_sign_message, validate_transaction, helper_send_response_sig,
}

-- The longest answer: the key and the chain code, each with its length.
abbrev pub max_response_len : ℕ
max_response_len = 99

abbrev pub IsShort : Reply → Type 0
IsShort (respond bytes sw) = length bytes ≤ max_response_len
IsShort (review pairs) = Unit {0}
IsShort (review_address text) = Unit {0}

-- A result with a short answer, if there is one.
pub data Short {A : Type 0} : Option (A × Reply) → Type 0 where
  fits : {a : A} {reply : Reply} → IsShort reply → Short (some (a, reply))
  faults : Short none

pub if-Short :
    {A : Type 0} (b : Bool) {x y : Option (A × Reply)}
    → Short x
    → Short y
    → Short (if b then x else y)
if-Short true h k = h
if-Short false h k = k

pub bind-Short :
    {A B : Type 0} (o : Option B) (f : B → Option (A × Reply))
    → ((b : B) → Short (f b))
    → Short (o >>= f)
bind-Short none f h = faults
bind-Short (some b) f h = h b

pub data Ends {A : Type 0} : A × Reply → Type 0 where
  ends : {a : A} {reply : Reply} → IsShort reply → Ends (a, reply)

if-Ends : {A : Type 0} (b : Bool) {x y : A × Reply} → Ends x → Ends y → Ends (if b then x else y)
if-Ends true h k = h
if-Ends false h k = k

any_status : {A : Type 0} (a : A) (sw : StatusWord) → Ends (a, send_sw sw)
any_status a sw = ends (omega arith)

pub of_Ends : {A B : Type 0} {r : A × Reply} (f : A → B) → Ends r → Short (some (f r.0, r.1))
of_Ends f (ends h) = fits h

pub status : {A : Type 0} (a : A) (sw : StatusWord) → Short (some (a, send_sw sw))
status a sw = fits (omega arith)

pub helper_send_response_pubkey-IsShort : (c : Context) → IsShort (helper_send_response_pubkey c)
unfolding helper_send_response_pubkey
helper_send_response_pubkey-IsShort c = omega (
  arith,
  length-append (raw_public_key c) (32 ∷ chain_code c),
  length-take 65 (drop 0 c.tx_info.raw_tx),
  length-take 32 (drop 65 c.tx_info.raw_tx),
)

signature-Short :
    (c : Context) {A : Type 0} (a : A)
    → Short (helper_send_response_sig c >>= λ reply. some (a, reply))
unfolding helper_send_response_sig
signature-Short c a =
    let n = c.tx_info.signature_len in
    elim (Bool-cases (ltb max_der_sig_len n)) [
      | inl e ↦ rw e faults
      | inr e ↦ rw e (
          fits (
            omega (
              arith,
              ltb→le max_der_sig_len n e,
              length-append (take n c.tx_info.signature) (c.tx_info.v % 256 ∷ []),
              length-take n c.tx_info.signature,
            )))
    ]

reply_of-IsShort : (crypto : CryptoOps) (s : Shown) → IsShort (reply_of crypto s)
reply_of-IsShort crypto (shown pairs) = tt
reply_of-IsShort crypto refused = omega arith

module _ (crypto : CryptoOps) where
  pub ui_display_transaction-Short : (c : Context) → Short (ui_display_transaction crypto c)
  unfolding ui_display_transaction
  ui_display_transaction-Short c = if-Short _ (status _ _) (
      bind-Short (email_pairs crypto c.tx_info.raw_tx c.tx_info.transaction) _
        λ pairs. fits (reply_of-IsShort crypto pairs))

  ui_display_address-Ends : (c : Context) → Ends (ui_display_address crypto c)
  unfolding ui_display_address
  ui_display_address-Ends c =
      elim (Bool-cases
        (not (is_request c.req_type confirm_address) || not (is_state c.state state_none))) [
          | inl e ↦ rw e (ends (omega arith))
          | inr e ↦
              elim (Option-cases (address_from_pubkey crypto (raw_public_key c) address_len)) [
                | inl none_found ↦ rw (e, none_found) (ends (omega arith))
                | inr (address, found) ↦ elim (Option-cases (crypto.format_hex address 43)) [
                  | inl bad ↦ rw (e, found, bad) (ends (omega arith))
                  | inr (text, done) ↦ rw (e, found, done) (ends tt)
                ]
              ]
        ]

  derive_public_key-Ends :
      (display : Bool) (c : Context) → Ends (derive_public_key crypto display c)
  unfolding derive_public_key
  derive_public_key-Ends display c =
      let (error, key, code) = crypto.get_pubkey c.bip32_path c.bip32_path_len in
      let derived = write_chain_code code (write_public_key key c) in
      let (compress_error, point) = crypto.compress_point (raw_public_key derived) in
      let compressed = write_public_key point derived in
      if-Ends (not (error == 0)) (any_status derived (cx_error (error % 2 ^ 16))) (
        if-Ends (not (compress_error == 0))
          (any_status compressed (cx_error (compress_error % 2 ^ 16)))
          (if-Ends display (ui_display_address-Ends compressed)
            (ends {a = compressed} (helper_send_response_pubkey-IsShort compressed))))

  pub handler_get_public_key-Ends :
      (ops : BufferOps) (cdata : Buffer) (display : Bool)
      → Ends (handler_get_public_key crypto ops cdata display)
  unfolding handler_get_public_key
  handler_get_public_key-Ends ops cdata display =
      let (ok, c) =
        read_path ops cdata
          (record zero_context { req_type = confirm_address; state = state_none }) in
      if-Ends (not ok) (any_status c swo_wrong_data_length) (derive_public_key-Ends display c)

  pub validate_transaction-Short :
      (confirm : Bool) (c : Context) → Short (validate_transaction crypto confirm c)
  unfolding validate_transaction
  validate_transaction-Short confirm c =
      let (signed, c1) = crypto_sign_message crypto (record c { state = state_approved }) in
      if-Short (not confirm) (status (record c { state = state_none }) swo_conditions_not_satisfied)
        (if-Short (not signed) (status (record c1 { state = state_none }) swo_security_issue)
          (signature-Short c1 c1))
