-- ===== src/Lib.antt =====
-- The HardMail app: a Ledger device shows an email in full and signs it. This library models the
-- app's C code and states what it is to do.
--
-- The parts, and how they interact. `app_main` receives commands (src/app_main.c), the dispatcher
-- checks them (src/apdu/dispatcher.c) and calls a handler. The signing handler
-- (src/handler/sign_tx.c) gathers chunks in the global context, parses the payload
-- (src/transaction/deserialize.c), hashes it and puts a review on the screen
-- (src/ui/nbgl_display_transaction.c). The user's choice comes back through a callback
-- (src/ui/action/validate.c), which signs the hash in the context and sends the signature.
--
-- The files:
--   Common        lists, slices, tests and integers over the native numbers.
--   Sdk           the SDK's buffers and cryptography: records of operations and records of the laws
--                 that the SDK documents, and concrete functions that meet them.
--   Email         src/transaction/tx_types.h: `email_t`, with a pointer as an offset in the payload.
--   Wire          the specification: messages, which are allowed, their encoding, and a reference
--                 parser with its proofs.
--   Parser        src/transaction/deserialize.c: `text_ok`, `read_text_field` and
--                 `transaction_deserialize`, the last cut in one function per field.
--   Serializer    src/transaction/serialize.c: `transaction_serialize`, with its output array.
--   Context       src/types.h: `global_ctx_t`. The union is kept as `raw_tx`, whose first 97 bytes
--                 are the key and the chain code.
--   Display       src/ui/nbgl_display_transaction.c: the arrays and strings of the review.
--   Address       src/address.c, src/handler/get_public_key.c, src/ui/nbgl_display_address.c.
--   Sign          src/handler/sign_tx.c, outside of a swap.
--   Validate      src/ui/action/validate.c and src/helper/send_reponse.c.
--   Machine       sequences of requests, chunks and choices on Sign and Validate, and an abstract
--                 session that keeps a path, a payload and the message on the screen.
--   Swap          src/swap/*.c, and the branches of src/handler/sign_tx.c for a transaction that the
--                 Exchange app asks for. They are built with HAVE_SWAP.
--   Tokens        src/token/*.c and src/handler/provide_token_info.c; the TLV library is a parameter.
--   Memo          src/transaction/utils.c.
--   Dispatcher    src/apdu/dispatcher.c, src/handler/get_version.c, src/handler/get_app_name.c.
--   Settings      src/ui/menu_nbgl.c: the two switches, and the flash of src/globals.h, with the start of
--                 `app_main`, which draws them before it sets up the flash.
--   Device        a round of the loop of src/app_main.c, and the review callbacks, as steps; the status
--                 pages after a choice.
--   App           `app_main` of src/app_main.c, with its failures to receive and to send, and an
--                 abstract session of versions, keys, tokens, emails and choices.
--   Overlap       the loop of src/app_main.c with commands that come while a review waits.
--   Tests         the data and the witnesses.
--
-- How the code is modelled. A function that changes the context takes it and returns it. A read or a
-- write outside of an array is `none` (`fault` in the parser). A C function that answers with
-- `io_send_sw` or `io_send_response_pointer` returns that answer. `LEDGER_ASSERT` of pointers that no
-- caller passes as NULL is left out, and so are the debug prints.
--
-- Bounds and fuel. Payloads have at most 2600 bytes (`MAX_TX_LEN`, `MAX_TRANSACTION_LEN`), so no
-- length in the code wraps; the casts to bytes are written out. Loops are structural recursion;
-- `decimal` has fuel for ten digits, and an attachment's size is below 2 ^ 32.
--
-- Assumptions. The laws of the SDK's functions in Sdk and Tokens.Lookup, each with a concrete
-- instance. In Device a command arrives only when no review waits for the user, as the transport's
-- commands are answered one at a time: `validate_transaction` itself does not check the state.
-- Overlap does without this assumption.
--
-- In a swap src/handler/sign_tx.c reads `value` and `fee` of the transaction, which `email_t` has no
-- fields for (a build with HAVE_SWAP does not compile), and `token_info` of the context, which nothing
-- else uses: they are arguments of the model. The SDK's swap helpers are operations without laws.
--
-- Not modelled: drawing, the tests (unit-tests, tests), and the fuzzing harness (fuzzing), which prints
-- fields that `email_t` does not have.
pub mod Common
pub mod Sdk
pub mod Email
pub mod Wire
pub mod Parser
pub mod Serializer
pub mod Context
pub mod Display
pub mod Address
pub mod Sign
pub mod Validate
pub mod Tokens
pub mod Memo
pub mod Dispatcher
pub mod Settings
pub mod Device
pub mod Tests
pub mod Swap
pub mod Machine
pub mod App
pub mod Overlap
