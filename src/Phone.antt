-- ===== src/Phone.antt =====
-- baileys/src/wa/phone.ts: a recipient's number, as WhatsApp wants it.
pub mod Digits
mod Tests
use whatsapp_auto_send.Prelude.{
  ℕ, String, Result, ok, err, [], ◌∷◌, ◌||◌, ◌==◌, nat_eq, ltb, if◌then◌else◌, trim, only_digits,
  utf16_length, starts_with, template, decimal, ◌<>◌, ◌>>=◌,
}

abbrev pub min_digits : ℕ
min_digits = 8

abbrev pub max_digits : ℕ
max_digits = 15

-- `InvalidPhoneNumberError` carries its message alone.
unfoldable pub normalise_phone_number : String → Result String String
normalise_phone_number input =
    let raw = trim input in
    let digits = only_digits raw in
    if utf16_length digits == 0
    then err (template ("\"" ∷ raw ∷ "\" contains no digits" ∷ []))
    else if starts_with digits "00"
    then err (
        template (
          "\"" ∷ raw
          ∷ "\" starts with the 00 international prefix. Drop it and use the country code "
          ∷ "alone, e.g. 00628123456789 becomes 628123456789." ∷ []))
    else if starts_with digits "0"
    then err (
        template (
          "\"" ∷ raw ∷ "\" looks like a national number. WhatsApp needs the country code and no "
          ∷ "leading zero, e.g. Indonesian 081234567890 becomes 6281234567890." ∷ []))
    else if ltb (utf16_length digits) min_digits || ltb max_digits (utf16_length digits)
    then err (
        template (
          "\""
          ∷ raw
          ∷ "\" has "
          ∷ decimal (utf16_length digits)
          ∷ " digits; a full international number has "
          ∷ decimal min_digits
          ∷ "–"
          ∷ decimal max_digits
          ∷ "."
          ∷ []))
    else ok digits

unfoldable pub to_user_jid : String → Result String String
to_user_jid input = do digits ← normalise_phone_number input; ok (digits <> "@s.whatsapp.net")
