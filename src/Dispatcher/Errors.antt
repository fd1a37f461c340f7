-- ===== src/Dispatcher/Errors.antt =====
-- The commands that src/apdu/dispatcher.c refuses before any handler runs.
use ledger_hardmail_app.Common.{
  ℕ, ◌≡◌, ◌<◌, ◌≢◌, refl, Bool, true, false, not, ◌||◌, none, some, arith, ◌==◌, ltb, ◌⊎◌,
}
use ledger_hardmail_app.Sdk.Buffers.{BufferOps}
use ledger_hardmail_app.Sdk.Crypto.{CryptoOps}
use ledger_hardmail_app.Tokens.{TlvOps}
use ledger_hardmail_app.Context.{
  send_sw, StatusWord, swo_invalid_cla, swo_invalid_ins, swo_incorrect_p1_p2, swo_wrong_data_length,
}
use ledger_hardmail_app.Dispatcher.{
  Command, Globals, Instruction, get_version, get_app_name, get_public_key, sign_tx, sign_token_tx,
  provide_token_info, unknown, instruction, bad_chunk, sign, run_instruction, apdu_dispatcher,
  cla_app, p2_last, p2_more,
}

-- The instruction takes data.
abbrev pub takes_data : Instruction → Bool
takes_data get_version = false
takes_data get_app_name = false
takes_data unknown = false
takes_data _ = true

-- The parameters that an instruction allows: none, a display flag, or a chunk number of at most 16
-- with a flag for more, which the first chunk must have.
abbrev pub ParametersOk : Instruction → ℕ → ℕ → Type 0
ParametersOk get_public_key p1 p2 = (p1 < 2) × (p2 ≡ 0)
ParametersOk sign_tx p1 p2 = (p1 < 17) × ((p2 ≡ p2_more) ⊎ ((p2 ≡ p2_last) × (0 < p1)))
ParametersOk sign_token_tx p1 p2 = (p1 < 17) × ((p2 ≡ p2_more) ⊎ ((p2 ≡ p2_last) × (0 < p1)))
ParametersOk unknown p1 p2 = ⊥
ParametersOk _ p1 p2 = (p1 ≡ 0) × (p2 ≡ 0)

-- Why a command is refused, and with what.
pub data Refusal (cmd : Command) : StatusWord → Type 0 where
  wrong_class : cmd.cla ≢ cla_app → Refusal cmd swo_invalid_cla
  unknown_instruction :
      cmd.cla ≡ cla_app → instruction cmd.ins ≡ unknown → Refusal cmd swo_invalid_ins
  wrong_parameters :
      (i : Instruction)
      → cmd.cla ≡ cla_app
      → instruction cmd.ins ≡ i
      → i ≢ unknown
      → (ParametersOk i cmd.p1 cmd.p2 → ⊥)
      → Refusal cmd swo_incorrect_p1_p2
  no_data :
      (i : Instruction)
      → cmd.cla ≡ cla_app
      → instruction cmd.ins ≡ i
      → takes_data i ≡ true
      → ParametersOk i cmd.p1 cmd.p2
      → cmd.payload ≡ none
      → Refusal cmd swo_wrong_data_length

abbrev bad_plain : ℕ → ℕ → Bool
bad_plain p1 p2 = not (p1 == 0) || not (p2 == 0)

abbrev bad_display : ℕ → ℕ → Bool
bad_display p1 p2 = ltb 1 p1 || ltb 0 p2

plain_ok : (p1 p2 : ℕ) → bad_plain p1 p2 ≡ false → (p1 ≡ 0) × (p2 ≡ 0)
plain_ok p1 p2 h = ground arith

display_ok : (p1 p2 : ℕ) → bad_display p1 p2 ≡ false → (p1 < 2) × (p2 ≡ 0)
display_ok p1 p2 h = ground arith

chunk_ok :
    (p1 p2 : ℕ)
    → bad_chunk p1 p2 ≡ false
    → (p1 < 17) × ((p2 ≡ p2_more) ⊎ ((p2 ≡ p2_last) × (0 < p1)))
chunk_ok p1 p2 h = ground arith

refused : (b : Bool) → (b ≡ false → ⊥) → b ≡ true
refused true h = refl
refused false h = absurd (h refl)

plain_fine : (p1 p2 : ℕ) → (p1 ≡ 0) × (p2 ≡ 0) → bad_plain p1 p2 ≡ false
plain_fine p1 p2 h = ground arith

display_fine : (p1 p2 : ℕ) → (p1 < 2) × (p2 ≡ 0) → bad_display p1 p2 ≡ false
display_fine p1 p2 h = ground arith

chunk_fine :
    (p1 p2 : ℕ)
    → (p1 < 17) × ((p2 ≡ p2_more) ⊎ ((p2 ≡ p2_last) × (0 < p1)))
    → bad_chunk p1 p2 ≡ false
chunk_fine p1 p2 h = ground arith

same : (a b : ℕ) → a ≡ b → (a == b) ≡ true
same a b h = ground arith

other : (a b : ℕ) → a ≢ b → (a == b) ≡ false
other a b h = ground arith

module _ (ops : BufferOps) (crypto : CryptoOps) (tlv : TlvOps) where
  bad_parameters :
      (i : Instruction) (g : Globals) (cmd : Command)
      → i ≢ unknown
      → (ParametersOk i cmd.p1 cmd.p2 → ⊥)
      → run_instruction ops crypto tlv i g cmd ≡ some (g, send_sw swo_incorrect_p1_p2)
  unfolding run_instruction sign
  bad_parameters get_version g cmd known bad =
      rw (refused (bad_plain cmd.p1 cmd.p2) λ e. bad (plain_ok cmd.p1 cmd.p2 e)) refl
  bad_parameters get_app_name g cmd known bad =
      rw (refused (bad_plain cmd.p1 cmd.p2) λ e. bad (plain_ok cmd.p1 cmd.p2 e)) refl
  bad_parameters get_public_key g cmd known bad =
      rw (refused (bad_display cmd.p1 cmd.p2) λ e. bad (display_ok cmd.p1 cmd.p2 e)) refl
  bad_parameters sign_tx g cmd known bad =
      rw (refused (bad_chunk cmd.p1 cmd.p2) λ e. bad (chunk_ok cmd.p1 cmd.p2 e)) refl
  bad_parameters sign_token_tx g cmd known bad =
      rw (refused (bad_chunk cmd.p1 cmd.p2) λ e. bad (chunk_ok cmd.p1 cmd.p2 e)) refl
  bad_parameters provide_token_info g cmd known bad =
      rw (refused (bad_plain cmd.p1 cmd.p2) λ e. bad (plain_ok cmd.p1 cmd.p2 e)) refl
  bad_parameters unknown g cmd known bad = absurd (known refl)

  empty_data :
      (i : Instruction) (g : Globals) (cmd : Command)
      → takes_data i ≡ true
      → ParametersOk i cmd.p1 cmd.p2
      → cmd.payload ≡ none
      → run_instruction ops crypto tlv i g cmd ≡ some (g, send_sw swo_wrong_data_length)
  unfolding run_instruction sign
  empty_data get_version g cmd takes ok empty = absurd (ground (arith, takes))
  empty_data get_app_name g cmd takes ok empty = absurd (ground (arith, takes))
  empty_data get_public_key g cmd takes ok empty = rw (display_fine cmd.p1 cmd.p2 ok, empty) refl
  empty_data sign_tx g cmd takes ok empty = rw (chunk_fine cmd.p1 cmd.p2 ok, empty) refl
  empty_data sign_token_tx g cmd takes ok empty = rw (chunk_fine cmd.p1 cmd.p2 ok, empty) refl
  empty_data provide_token_info g cmd takes ok empty = rw (plain_fine cmd.p1 cmd.p2 ok, empty) refl
  empty_data unknown g cmd takes ok empty = absurd (ground (arith, takes))

  -- A command with a wrong class, instruction or parameters, or without the data that its
  -- instruction takes, is refused with the status word that says so, and changes nothing.
  pub apdu_dispatcher-refuses :
      (g : Globals) (cmd : Command) (sw : StatusWord)
      → Refusal cmd sw
      → apdu_dispatcher ops crypto tlv g cmd ≡ some (g, send_sw sw)
  unfolding apdu_dispatcher run_instruction
  apdu_dispatcher-refuses g cmd _ (wrong_class e) =
      let wrong : (cmd.cla == cla_app) ≡ false = other cmd.cla cla_app e in rw wrong refl
  apdu_dispatcher-refuses g cmd _ (unknown_instruction cla e) =
      rw (same cmd.cla cla_app cla, e) refl
  apdu_dispatcher-refuses g cmd _ (wrong_parameters i cla e known bad) =
      rw (same cmd.cla cla_app cla, e) (bad_parameters i g cmd known bad)
  apdu_dispatcher-refuses g cmd _ (no_data i cla e takes ok empty) =
      rw (same cmd.cla cla_app cla, e) (empty_data i g cmd takes ok empty)
