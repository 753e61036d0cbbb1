-- ===== src/Phone/Tests.antt =====
-- Runs of wa/phone.ts, and the theorems at concrete numbers.
use whatsapp_auto_send.Prelude.{◌≡◌, refl, ok, err, ◌↔◌, only_digits, text_runs}
use whatsapp_auto_send.Phone.{normalise_phone_number, to_user_jid}
use whatsapp_auto_send.Phone.Digits.{IsInternational, normalise_phone_number_iff}

indonesian : normalise_phone_number " +62 812-3456-7890 " ≡ ok "6281234567890"
unfolding normalise_phone_number text_runs
indonesian = refl

national :
    normalise_phone_number "0812"
    ≡ err
        "\"0812\" looks like a national number. WhatsApp needs the country code and no leading zero, e.g. Indonesian 081234567890 becomes 6281234567890."
unfolding normalise_phone_number text_runs
national = refl

jid : to_user_jid "+62 812-3456-7890" ≡ ok "6281234567890@s.whatsapp.net"
unfolding to_user_jid normalise_phone_number text_runs
jid = refl

jid_plain : to_user_jid "6281234567890" ≡ ok "6281234567890@s.whatsapp.net"
unfolding to_user_jid normalise_phone_number text_runs
jid_plain = refl

normalise_phone_number_iff_example :
    (normalise_phone_number "0812" ≡ ok "0812")
    ↔ (("0812" ≡ only_digits "0812") × IsInternational "0812")
normalise_phone_number_iff_example = normalise_phone_number_iff "0812" "0812"
