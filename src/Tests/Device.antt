-- ===== src/Tests/Device.antt =====
-- Witnesses for the device's invariant.
use ledger_hardmail_app.Common.{◌≡◌, refl, some, none, arith, [], ◌∷◌, true, ◌&&◌}
use ledger_hardmail_app.Sdk.StandIn.{stand_in, stand_in_laws}
use ledger_hardmail_app.Sdk.CryptoStandIn.{
  stand_in_crypto, stand_in_hex, stand_in_hash, stand_in_sign,
}
use ledger_hardmail_app.Wire.{Message, IsValid, encode}
use ledger_hardmail_app.Context.{Context, Reply, send_sw, swo_invalid_ins, state_parsed}
use ledger_hardmail_app.Display.Review.{review_of}
use ledger_hardmail_app.Sign.{payload}
use ledger_hardmail_app.Sign.Chunks.{IsContext}
use ledger_hardmail_app.Validate.Choice.{signature_reply}
use ledger_hardmail_app.Tokens.{init_dynamic_token_storage}
use ledger_hardmail_app.Tokens.StandIn.{tlv_stand_in, tlv_stand_in_laws}
use ledger_hardmail_app.Dispatcher.{Command, Globals, apdu_dispatcher, run_instruction}
use ledger_hardmail_app.Device.{
  Device, menu, transaction_review, device_of, start, receive, review_choice, command, started,
  stepped,
}
use ledger_hardmail_app.Device.Invariant.{Reachable-IsDevice, review_choice-signs}
use ledger_hardmail_app.Device.Holds.{IsDevice}
use ledger_hardmail_app.Sdk.Crypto.{CryptoOps, SignLaw}
use ledger_hardmail_app.Device.Pages.{
  Page, claims, succeeds, can_answer, review_choice_page, review_choice-page,
}
use ledger_hardmail_app.Tests.{
  sample, sample-IsValid, sample_bytes-encode, sample_context, sample_context-IsContext,
}

-- The sample received, parsed and hashed, with its review on the screen.
abbrev ready_context : Context
ready_context = record sample_context {
  state = state_parsed;
  tx_info = record (sample_context.tx_info) {
    m_hash = (stand_in_crypto.hash_sha256 (encode sample)).1;
  };
  bip32_path = 44 ∷ [];
  bip32_path_len = 1;
}

abbrev ready_device : Device
ready_device = record {
  globals = record { context = ready_context; token = init_dynamic_token_storage tlv_stand_in };
  screen = transaction_review (review_of sample);
}

ready_device-IsDevice : IsDevice stand_in_crypto ready_device
ready_device-IsDevice = record {
  well = record {
    raw_size = sample_context-IsContext.raw_size;
    raw_fits = sample_context-IsContext.raw_fits;
    raw_bytes = sample_context-IsContext.raw_bytes;
    signature_size = sample_context-IsContext.signature_size;
  };
  screen_ok = record {
    message = sample;
    valid = sample-IsValid;
    received = sample_bytes-encode;
    shown = refl;
    digest = refl;
    parsed = refl;
    requested = refl;
  };
}

review_choice-signs_example :
    (m : Message) × (g : Globals) × IsValid m
    × (review_of sample ≡ review_of m)
    × (payload ready_context ≡ encode m)
    × (review_choice stand_in stand_in_crypto tlv_stand_in ready_device true
        ≡ some (
            device_of (
              g,
              signature_reply stand_in_crypto
                  (44 ∷ [])
                  1
                  (stand_in_crypto.hash_sha256 (encode m)).1,
            )))
    × IsContext g.context
review_choice-signs_example =
    review_choice-signs stand_in stand_in_laws stand_in_crypto stand_in_hex stand_in_hash
      stand_in_sign tlv_stand_in tlv_stand_in_laws ready_device (review_of sample)
      ready_device-IsDevice refl

abbrev unknown_command : Command
unknown_command = record { cla = 0xe0; ins = 9; p1 = 0; p2 = 0; lc = 0; payload = none }

receive-unknown :
    receive stand_in stand_in_crypto tlv_stand_in
      (start stand_in stand_in_crypto tlv_stand_in)
      (some unknown_command)
    ≡ some (start stand_in stand_in_crypto tlv_stand_in, send_sw swo_invalid_ins)
unfolding receive apdu_dispatcher run_instruction start
receive-unknown = refl

start-menu : (start stand_in stand_in_crypto tlv_stand_in).screen ≡ menu
unfolding start
start-menu = refl

Reachable-IsDevice_example : IsDevice stand_in_crypto (start stand_in stand_in_crypto tlv_stand_in)
Reachable-IsDevice_example =
    Reachable-IsDevice stand_in stand_in_laws stand_in_crypto stand_in_hex stand_in_hash
      stand_in_sign tlv_stand_in tlv_stand_in_laws
      (stepped started (command (some unknown_command) start-menu tt receive-unknown))

-- A device whose signatures fail.
abbrev failing_crypto : CryptoOps
failing_crypto = record stand_in_crypto { eddsa_sign = λ path n digest. (1, [], 0) }

failing_sign : SignLaw failing_crypto
failing_sign = record { signed_length = λ path n digest e. absurd (ground (arith, e)) }

review_choice-page_example :
    (d : Device) × (reply : Reply) × (page : Page) × (review_choice_page stand_in failing_crypto
        tlv_stand_in ready_device true
      ≡ some (d, reply, page))
    × (claims page ≡ true)
    × (succeeds reply ≡ (true && can_answer failing_crypto ready_context ready_device.screen))
review_choice-page_example =
    review_choice-page stand_in failing_crypto failing_sign tlv_stand_in ready_device true
      ready_device-IsDevice.well λ e. ground (arith, e)
