-- ===== src/Tests.antt =====
-- The data that the witnesses of the theorems run on.
mod Wire
mod Signing
mod Device
mod Others
mod Settings
mod Swap
mod Machine
mod App
mod Sessions
mod Overlap
use ledger_hardmail_app.Settings.{Menu}
use ledger_hardmail_app.Common.{
  ℕ, ◌+◌, ◌-◌, ◌<◌, ◌≤◌, ◌≡◌, refl, Bool, true, false, ◌&&◌, List, [], ◌∷◌, ◌++◌, Option, none,
  some, arith, length, replicate, ltb, ltb→lt, if◌then◌else◌, length-append, Bool-cases, inl, inr,
}
use ledger_hardmail_app.Sdk.Buffers.{Bytes, Buffer, IsBuffer, rest}
use ledger_hardmail_app.Sdk.CryptoStandIn.{stand_in_crypto}
use ledger_hardmail_app.Email.{Email, at, zero_email}
use ledger_hardmail_app.Wire.{Attachment, Message, AllBytes, IsText, IsAttachment, IsValid, encode}
use ledger_hardmail_app.Parser.View.{IsInMemory}
use ledger_hardmail_app.Context.{
  Context, TxInfo, zero_context, zero_bytes, length-zero_bytes, max_der_sig_len, state_none,
  state_parsed, confirm_transaction,
}
use ledger_hardmail_app.Display.{codes}
use ledger_hardmail_app.Sign.{payload}
use ledger_hardmail_app.Dispatcher.{Command}
use ledger_hardmail_app.Sign.Chunks.{IsContext}

-- What a result holds, or a default.
abbrev pub result_or {ℓ} : {A : Type ℓ} → A → Option A → A
result_or x none = x
result_or x (some a) = a

abbrev all_below : Bytes → Bool
all_below [] = true
all_below (c ∷ cs) = if ltb c 256 then all_below cs else false

pub AllBytes-by : (bs : Bytes) → all_below bs ≡ true → AllBytes bs
AllBytes-by [] h = tt
AllBytes-by (c ∷ cs) h = elim (Bool-cases (ltb c 256)) [
  | inl e ↦ (ltb→lt c 256 e, AllBytes-by cs (rw e at h))
  | inr e ↦ absurd (ground (arith, rw e at h))
]

abbrev sample_attachment : Attachment
sample_attachment = record { name = codes "f.txt"; size = 70000; hash = replicate 32 0xab }

abbrev pub sample : Message
sample = record {
  challenge = replicate 16 0x5a;
  from = codes "a@b.c";
  to = codes "d@e.f";
  subject = codes "Hi";
  body = 0x59 ∷ 0x0a ∷ 0x5a ∷ [];
  attachment = some sample_attachment;
}

pub sample-IsValid : IsValid sample
sample-IsValid = record {
  challenge_16 = refl;
  from_text = record { present = omega arith; bounded = omega arith; printable = refl };
  to_text = record { present = omega arith; bounded = omega arith; printable = refl };
  subject_text = record { present = omega arith; bounded = omega arith; printable = refl };
  body_text = record { present = omega arith; bounded = omega arith; printable = refl };
  attachment_ok = record {
    name_text = record { present = omega arith; bounded = omega arith; printable = refl };
    size_u32 = omega arith;
    hash_len = refl;
  };
}

-- The payload of the sample, byte for byte.
abbrev pub sample_bytes : Bytes
sample_bytes =
    replicate 16 0x5a
    ++ (5 ∷ codes "a@b.c")
    ++ (5 ∷ codes "d@e.f")
    ++ (2 ∷ codes "Hi")
    ++ (0 ∷ 3 ∷ 0x59 ∷ 0x0a ∷ 0x5a ∷ [])
    ++ (1 ∷ 5 ∷ codes "f.txt")
    ++ (0 ∷ 1 ∷ 0x11 ∷ 0x70 ∷ replicate 32 0xab)

pub sample_bytes-encode : sample_bytes ≡ encode sample
unfolding encode
sample_bytes-encode = refl

abbrev pub buffer_on : Bytes → Buffer
buffer_on bytes = record { ptr = bytes; size = length bytes; offset = 0 }

pub buffer_on-IsBuffer : (bytes : Bytes) → IsBuffer (buffer_on bytes)
buffer_on-IsBuffer bytes = record { in_memory = omega arith; in_buffer = omega arith }

-- The sample as the parser leaves it: the email's pointers into the payload.
abbrev pub sample_email : Email
sample_email = record {
  challenge = at 0;
  from = at 17;
  from_len = 5;
  to = at 23;
  to_len = 5;
  subject = at 29;
  subject_len = 2;
  body = at 33;
  body_len = 3;
  has_attachment = 1;
  att_name = at 38;
  att_name_len = 5;
  att_size = 70000;
  att_hash = at 47;
}

pub sample_email-IsInMemory : IsInMemory sample_bytes sample_email
sample_email-IsInMemory = record {
  challenge_in = omega arith;
  from_in = omega arith;
  to_in = omega arith;
  subject_in = omega arith;
  body_in = omega arith;
  attachment_in = (omega arith, omega arith);
}

-- A context with the sample received.
abbrev pub sample_context : Context
sample_context = record zero_context {
  tx_info = record (zero_context.tx_info) {
    raw_tx = sample_bytes ++ zero_bytes (2600 - length sample_bytes);
    raw_tx_len = length sample_bytes;
  };
  req_type = confirm_transaction;
}

pub sample_context-IsContext : IsContext sample_context
sample_context-IsContext = record {
  raw_size = omega (
    arith,
    length-append sample_bytes (zero_bytes (2600 - length sample_bytes)),
    length-zero_bytes (2600 - length sample_bytes),
  );
  raw_fits = omega arith;
  raw_bytes = AllBytes-by (payload sample_context) refl;
  signature_size = length-zero_bytes max_der_sig_len;
}

-- A path with one element, and the sample in one chunk.
abbrev pub path_command : Command
path_command = record {
  cla = 0xe0;
  ins = 6;
  p1 = 0;
  p2 = 0x80;
  lc = 5;
  payload = some (1 ∷ 0 ∷ 0 ∷ 0 ∷ 44 ∷ []);
}

abbrev pub sample_command : Command
sample_command = record {
  cla = 0xe0;
  ins = 6;
  p1 = 1;
  p2 = 0;
  lc = 79;
  payload = some sample_bytes;
}

-- The home screen of a new device, before the flash is set up.
abbrev pub fresh_menu : Menu
fresh_menu = record {
  storage = record { dummy1_allowed = 7; dummy2_allowed = 7; initialized = 0xff };
  switch_1 = 0;
  switch_2 = 0;
  init_setting_page = 0;
  warning = false;
}
