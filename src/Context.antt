-- ===== src/Context.antt =====
-- The global context of src/types.h and what the handlers send back.
use ledger_hardmail_app.Common.{
  ℕ, ◌≡◌, Bool, true, false, List, [], length, replicate, length-replicate, slice, write_at,
}
use ledger_hardmail_app.Sdk.Buffers.{Bytes}
use ledger_hardmail_app.Email.{Email, zero_email}

abbrev pub max_transaction_len : ℕ
max_transaction_len = 2600

abbrev pub max_der_sig_len : ℕ
max_der_sig_len = 72

-- `state_e`, `request_type_e`
pub data State : Type 0 where
  state_none : State
  state_parsed : State
  state_approved : State

pub data RequestType : Type 0 where
  confirm_address : RequestType
  confirm_transaction : RequestType
  confirm_token_transaction : RequestType

abbrev pub is_state : State → State → Bool
is_state state_none state_none = true
is_state state_parsed state_parsed = true
is_state state_approved state_approved = true
is_state _ _ = false

abbrev pub is_request : RequestType → RequestType → Bool
is_request confirm_address confirm_address = true
is_request confirm_transaction confirm_transaction = true
is_request confirm_token_transaction confirm_token_transaction = true
is_request _ _ = false

-- `transaction_ctx_t`, without `token_info`, which only the swap code reads.
pub record TxInfo : Type 0 where
  pub raw_tx : Bytes
  pub raw_tx_len : ℕ
  pub transaction : Email
  pub is_token_tx : Bool
  pub m_hash : Bytes
  pub signature : Bytes
  pub signature_len : ℕ
  pub v : ℕ

-- `global_ctx_t`. The union of `pk_info` and `tx_info` is kept as `tx_info`.
pub record Context : Type 0 where
  pub state : State
  pub tx_info : TxInfo
  pub req_type : RequestType
  pub bip32_path : List ℕ
  pub bip32_path_len : ℕ

-- `pk_info` lies over the first bytes of `raw_tx`: the public key, then the chain code.
abbrev pub pubkey_len : ℕ
pubkey_len = 65

abbrev pub chaincode_len : ℕ
chaincode_len = 32

abbrev pub raw_public_key : Context → Bytes
raw_public_key c = slice c.tx_info.raw_tx 0 pubkey_len

abbrev pub chain_code : Context → Bytes
chain_code c = slice c.tx_info.raw_tx pubkey_len chaincode_len

abbrev pub set_raw_tx : Context → Bytes → Context
set_raw_tx c raw = record c { tx_info = record (c.tx_info) { raw_tx = raw } }

abbrev pub write_public_key : Bytes → Context → Context
write_public_key key c = set_raw_tx c (write_at c.tx_info.raw_tx 0 key)

abbrev pub write_chain_code : Bytes → Context → Context
write_chain_code code c = set_raw_tx c (write_at c.tx_info.raw_tx pubkey_len code)

unfoldable pub zero_bytes : ℕ → Bytes
zero_bytes n = replicate n 0

pub length-zero_bytes : (n : ℕ) → length (zero_bytes n) ≡ n
unfolding zero_bytes
length-zero_bytes n = length-replicate n 0

-- `explicit_bzero(&G_context, sizeof(G_context))`: zero is STATE_NONE and CONFIRM_ADDRESS.
abbrev pub zero_context : Context
zero_context = record {
  state = state_none;
  tx_info = record {
    raw_tx = zero_bytes max_transaction_len;
    raw_tx_len = 0;
    transaction = zero_email;
    is_token_tx = false;
    m_hash = zero_bytes 32;
    signature = zero_bytes max_der_sig_len;
    signature_len = 0;
    v = 0;
  };
  req_type = confirm_address;
  bip32_path = [];
  bip32_path_len = 0;
}

-- Status words; an error code of the cryptography is sent as it is.
pub data StatusWord : Type 0 where
  swo_success : StatusWord
  swo_wrong_data_length : StatusWord
  swo_conditions_not_satisfied : StatusWord
  swo_incorrect_data : StatusWord
  swo_security_issue : StatusWord
  swo_invalid_cla : StatusWord
  swo_invalid_ins : StatusWord
  swo_incorrect_p1_p2 : StatusWord
  sw_invalid_dynamic_token : StatusWord
  cx_error : ℕ → StatusWord

-- One line of a review: the item and the C string under it.
pub record Pair : Type 0 where
  pub item : Bytes
  pub value : Bytes

-- What a handler ends with: a response, or a review on the screen whose answer comes later.
pub data Reply : Type 0 where
  respond : Bytes → StatusWord → Reply
  review : List Pair → Reply
  review_address : Bytes → Reply

abbrev pub send_sw : StatusWord → Reply
send_sw sw = respond [] sw
