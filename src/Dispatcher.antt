-- ===== src/Dispatcher.antt =====
-- src/apdu/dispatcher.c, with the handlers of src/handler/get_version.c and
-- src/handler/get_app_name.c. The version and the name are those of the Makefile.
pub mod Answers
pub mod Errors
pub mod Lengths
pub mod Bounds
use ledger_hardmail_app.Common.{
  ℕ, Bool, true, false, not, ◌&&◌, ◌||◌, List, [], ◌∷◌, Option, none, some, length, ltb, ◌==◌,
  if◌then◌else◌, ◌>>=◌, ◌≡◌,
}
use ledger_hardmail_app.Sdk.Buffers.{Bytes, Buffer, BufferOps}
use ledger_hardmail_app.Sdk.Crypto.{CryptoOps}
use ledger_hardmail_app.Wire.{AllBytes}
use ledger_hardmail_app.Context.{
  Context, Reply, respond, send_sw, StatusWord, swo_success, swo_invalid_cla, swo_invalid_ins,
  swo_incorrect_p1_p2, swo_wrong_data_length,
}
use ledger_hardmail_app.Display.{codes}
use ledger_hardmail_app.Address.{handler_get_public_key}
use ledger_hardmail_app.Sign.{handler_sign_tx}
use ledger_hardmail_app.Tokens.{DynamicTokenInfo, TlvOps, handler_provide_token_info}

-- `command_t` of the SDK's parser.h; `none` is a NULL pointer.
pub record Command : Type 0 where
  pub cla : ℕ
  pub ins : ℕ
  pub p1 : ℕ
  pub p2 : ℕ
  pub lc : ℕ
  pub payload : Option Bytes

-- What the SDK's `apdu_parser` makes: the data has `lc` bytes.
abbrev pub IsPayload : ℕ → Option Bytes → Type 0
IsPayload lc none = Unit {0}
IsPayload lc (some bytes) = (length bytes ≡ lc) × AllBytes bytes

-- The globals: `G_context` and `g_dynamic_token_info`.
pub record Globals : Type 0 where
  pub context : Context
  pub token : DynamicTokenInfo

-- `command_e`.
pub data Instruction : Type 0 where
  get_version : Instruction
  get_app_name : Instruction
  get_public_key : Instruction
  sign_tx : Instruction
  sign_token_tx : Instruction
  provide_token_info : Instruction
  unknown : Instruction

abbrev pub instruction : ℕ → Instruction
instruction ins =
    if ins == 0x03
    then get_version
    else if ins == 0x04
    then get_app_name
    else if ins == 0x05
    then get_public_key
    else if ins == 0x06
    then sign_tx
    else if ins == 0x07
    then sign_token_tx
    else if ins == 0x22
    then provide_token_info
    else unknown

abbrev pub cla_app : ℕ
cla_app = 0xe0

abbrev pub p1_start : ℕ
p1_start = 0x00

abbrev pub p1_max : ℕ
p1_max = 0x10

abbrev pub p2_last : ℕ
p2_last = 0x00

abbrev pub p2_more : ℕ
p2_more = 0x80

-- The guard of the two signing instructions.
abbrev pub bad_chunk : ℕ → ℕ → Bool
bad_chunk p1 p2 =
    (p1 == p1_start && not (p2 == p2_more))
    || ltb p1_max p1
    || (not (p2 == p2_last) && not (p2 == p2_more))

abbrev pub buffer_of : ℕ → Bytes → Buffer
buffer_of lc bytes = record { ptr = bytes; size = lc; offset = 0 }

unfoldable pub handler_get_version : Reply
handler_get_version = respond (2 ∷ 3 ∷ 2 ∷ []) swo_success

unfoldable pub handler_get_app_name : Reply
handler_get_app_name = respond (codes "HardMail") swo_success

abbrev pub with_context : Globals → Context × Reply → Globals × Reply
with_context g (c, reply) = (record g { context = c }, reply)

abbrev pub with_token : Globals → DynamicTokenInfo × StatusWord → Globals × Reply
with_token g (t, sw) = (record g { token = t }, send_sw sw)

-- A NULL data pointer is answered before the handler is called.
abbrev pub with_data :
    Globals → Command → (Buffer → Option (Globals × Reply)) → Option (Globals × Reply)
with_data g cmd handler = elim cmd.payload [
  | none ↦ some (g, send_sw swo_wrong_data_length)
  | some bytes ↦ handler (buffer_of cmd.lc bytes)
]

module _ (ops : BufferOps) (crypto : CryptoOps) (tlv : TlvOps) where
  unfoldable pub sign : Globals → Command → Bool → Option (Globals × Reply)
  sign g cmd is_token_tx =
      if bad_chunk cmd.p1 cmd.p2
      then some (g, send_sw swo_incorrect_p1_p2)
      else with_data g cmd λ buf. do
        r ← handler_sign_tx ops crypto buf cmd.p1 (cmd.p2 == p2_more) is_token_tx g.context
        some (with_context g r)

  unfoldable pub run_instruction : Instruction → Globals → Command → Option (Globals × Reply)
  run_instruction get_version g cmd =
      if not (cmd.p1 == 0) || not (cmd.p2 == 0)
      then some (g, send_sw swo_incorrect_p1_p2)
      else some (g, handler_get_version)
  run_instruction get_app_name g cmd =
      if not (cmd.p1 == 0) || not (cmd.p2 == 0)
      then some (g, send_sw swo_incorrect_p1_p2)
      else some (g, handler_get_app_name)
  run_instruction get_public_key g cmd =
      if ltb 1 cmd.p1 || ltb 0 cmd.p2
      then some (g, send_sw swo_incorrect_p1_p2)
      else with_data g cmd
          λ buf. some (with_context g (handler_get_public_key crypto ops buf (not (cmd.p1 == 0))))
  run_instruction sign_tx g cmd = sign g cmd false
  run_instruction sign_token_tx g cmd = sign g cmd true
  run_instruction provide_token_info g cmd =
      if not (cmd.p1 == 0) || not (cmd.p2 == 0)
      then some (g, send_sw swo_incorrect_p1_p2)
      else with_data g cmd λ buf. do r ← handler_provide_token_info tlv buf; some (with_token g r)
  run_instruction unknown g cmd = some (g, send_sw swo_invalid_ins)

  -- `apdu_dispatcher`.
  unfoldable pub apdu_dispatcher : Globals → Command → Option (Globals × Reply)
  apdu_dispatcher g cmd =
      if not (cmd.cla == cla_app)
      then some (g, send_sw swo_invalid_cla)
      else run_instruction (instruction cmd.ins) g cmd
