-- ===== src/Display/Encoded.antt =====
-- The hexadecimal fields of a review of src/ui/nbgl_display_transaction.c, of a payload of bytes.
use ledger_hardmail_app.Common.{[], ◌∷◌, ◌++◌, Option, none, some, length, ◌/◌, ◌%◌}
use ledger_hardmail_app.Sdk.Buffers.{Bytes}
use ledger_hardmail_app.Wire.{
  Attachment, Message, AllBytes, encode, put_attachment, put_text, u16, u32,
}
use ledger_hardmail_app.Wire.Sound.{AllBytes-append_right}
use ledger_hardmail_app.Display.Injective.{HexBytes, AttachmentBytes}

AllBytes-append_left : (xs ys : Bytes) → AllBytes (xs ++ ys) → AllBytes xs
AllBytes-append_left [] ys h = tt
AllBytes-append_left (x ∷ xs) ys (hx, h) = (hx, AllBytes-append_left xs ys h)

AttachmentBytes-put : (a : Option Attachment) → AllBytes (put_attachment a []) → AttachmentBytes a
AttachmentBytes-put none h = tt
AttachmentBytes-put (some a) h =
    let after_name =
      AllBytes-append_right (1 ∷ length a.name ∷ a.name) (u32 a.size (a.hash ++ [])) h in
    AllBytes-append_left a.hash [] after_name.1.1.1.1

pub HexBytes-encode : (m : Message) → AllBytes (encode m) → HexBytes m
unfolding encode
HexBytes-encode m h =
    let tail = put_attachment m.attachment [] in
    let body = u16 (length m.body) (m.body ++ tail) in
    let subject = put_text m.subject body in
    let to = put_text m.to subject in
    let from = put_text m.from to in
    let h1 = AllBytes-append_right m.challenge from h in
    let h2 = AllBytes-append_right (length m.from ∷ m.from) to h1 in
    let h3 = AllBytes-append_right (length m.to ∷ m.to) subject h2 in
    let h4 = AllBytes-append_right (length m.subject ∷ m.subject) body h3 in
    let h5 = AllBytes-append_right (length m.body / 256 ∷ length m.body % 256 ∷ m.body) tail h4 in
    (AllBytes-append_left m.challenge from h, AttachmentBytes-put m.attachment h5)
