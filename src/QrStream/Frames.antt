-- ===== src/QrStream/Frames.antt =====
-- The text of a frame of qr-stream.ts: `formatEvent`, with `JSON.stringify` of an object of texts.
use Prim.Native.Char.{Char, code}
use text.Mathlib.TextLemmas.{cons-append, nil-append}
use whatsapp_auto_send.Prelude.{
  ℕ, zero, suc, ◌%◌, ◌≡◌, ◌≢◌, String, Option, none, some, List, [], ◌∷◌, arith, map, subst, sym,
  ◌==◌, nat_eq, if◌then◌else◌, if_cases, template, join, ltb, digit_text, ◌<>◌, All, refl,
}
use whatsapp_auto_send.Database.{status_name}
use whatsapp_auto_send.QrStream.{Frame, status_frame, qr_frame, paired_frame, failed_frame, ping}

hex_digit : ℕ → String
hex_digit n =
    if n == 10
    then "a"
    else if n == 11
    then "b"
    else if n == 12
    then "c"
    else if n == 13
    then "d"
    else if n == 14
    then "e"
    else if n == 15
    then "f"
    else digit_text n

-- A control character that has no short form.
control_text : ℕ → String
unfolding hex_digit
control_text n = template ("\\u00" ∷ (if ltb n 16 then "0" else "1") ∷ hex_digit (n % 16) ∷ [])

json_char : Char → String
unfolding control_text
json_char c =
    if code c == 34
    then "\\\""
    else if code c == 92
    then "\\\\"
    else if code c == 8
    then "\\b"
    else if code c == 9
    then "\\t"
    else if code c == 10
    then "\\n"
    else if code c == 12
    then "\\f"
    else if code c == 13
    then "\\r"
    else if ltb (code c) 32
    then control_text (code c)
    else String.◌∷◌ c String.[]

json_chars : String → String
unfolding json_char
json_chars String.[] = String.[]
json_chars (String.◌∷◌ c s) = json_char c <> json_chars s

-- `JSON.stringify` of a text.
unfoldable pub json_text : String → String
unfolding json_chars
json_text s = template ("\"" ∷ json_chars s ∷ "\"" ∷ [])

abbrev member_text : String × String → String
member_text (key, value) = template (json_text key ∷ ":" ∷ json_text value ∷ [])

-- `JSON.stringify` of an object whose values are texts.
unfoldable pub object_text : List (String × String) → String
unfolding json_text
object_text members = template ("{" ∷ join "," (map member_text members) ∷ "}" ∷ [])

abbrev with_phone : Option String → List (String × String)
with_phone none = []
with_phone (some phone) = ("phoneNumber", phone) ∷ []

abbrev pub members_of : Frame → List (String × String)
members_of (status_frame id status phone) =
    ("id", id) ∷ ("status", status_name status) ∷ with_phone phone
members_of (qr_frame id qr) = ("id", id) ∷ ("qr", qr) ∷ []
members_of (paired_frame id phone) = ("id", id) ∷ with_phone phone
members_of (failed_frame id) = ("id", id) ∷ ("reason", "logged_out") ∷ []
members_of ping = []

unfoldable pub format_event : String → List (String × String) → String
unfolding object_text
format_event event members =
    template ("event: " ∷ event ∷ "\ndata: " ∷ object_text members ∷ "\n\n" ∷ [])

unfoldable pub frame_text : Frame → String
unfolding format_event
frame_text (status_frame id status phone) =
    format_event "status" (members_of (status_frame id status phone))
frame_text (qr_frame id qr) = format_event "qr" (members_of (qr_frame id qr))
frame_text (paired_frame id phone) = format_event "paired" (members_of (paired_frame id phone))
frame_text (failed_frame id) = format_event "failed" (members_of (failed_frame id))
frame_text ping = ": ping\n\n"

-- No line break in a text.
abbrev pub IsOneLine : String → Type 0
IsOneLine String.[] = Unit
IsOneLine (String.◌∷◌ c s) = (code c ≢ 10) × (code c ≢ 13) × IsOneLine s

append-IsOneLine : (s t : String) → IsOneLine s → IsOneLine t → IsOneLine (s <> t)
append-IsOneLine String.[] t h k = subst IsOneLine (sym (nil-append t)) k
append-IsOneLine (String.◌∷◌ c s) t h k =
    subst IsOneLine (sym (cons-append c s t)) (h.0, h.1, append-IsOneLine s t h.2 k)

template-IsOneLine : (ss : List String) → All IsOneLine ss → IsOneLine (template ss)
unfolding template
template-IsOneLine [] h = tt
template-IsOneLine (s ∷ ss) h = append-IsOneLine s (template ss) h.0 (template-IsOneLine ss h.1)

join-IsOneLine :
    (sep : String) (ss : List String) → IsOneLine sep → All IsOneLine ss → IsOneLine (join sep ss)
unfolding join
join-IsOneLine sep [] k h = tt
join-IsOneLine sep (s ∷ []) k h = h.0
join-IsOneLine sep (s ∷ t ∷ ss) k h =
    append-IsOneLine s (sep <> join sep (t ∷ ss)) h.0
      (append-IsOneLine sep (join sep (t ∷ ss)) k (join-IsOneLine sep (t ∷ ss) k h.1))

digit_text-IsOneLine : (n : ℕ) → IsOneLine (digit_text n)
digit_text-IsOneLine zero = omega arith
digit_text-IsOneLine (suc zero) = omega arith
digit_text-IsOneLine (suc (suc zero)) = omega arith
digit_text-IsOneLine (suc (suc (suc zero))) = omega arith
digit_text-IsOneLine (suc (suc (suc (suc zero)))) = omega arith
digit_text-IsOneLine (suc (suc (suc (suc (suc zero))))) = omega arith
digit_text-IsOneLine (suc (suc (suc (suc (suc (suc zero)))))) = omega arith
digit_text-IsOneLine (suc (suc (suc (suc (suc (suc (suc zero))))))) = omega arith
digit_text-IsOneLine (suc (suc (suc (suc (suc (suc (suc (suc zero)))))))) = omega arith
digit_text-IsOneLine (suc (suc (suc (suc (suc (suc (suc (suc (suc n))))))))) = omega arith

hex_digit-IsOneLine : (n : ℕ) → IsOneLine (hex_digit n)
unfolding hex_digit
hex_digit-IsOneLine n =
    if_cases IsOneLine (n == 10) _ _ (λ _. omega arith)
      λ _.
        if_cases IsOneLine (n == 11) _ _ (λ _. omega arith)
          λ _.
            if_cases IsOneLine (n == 12) _ _ (λ _. omega arith)
              λ _.
                if_cases IsOneLine (n == 13) _ _ (λ _. omega arith)
                  λ _.
                    if_cases IsOneLine (n == 14) _ _ (λ _. omega arith)
                      λ _.
                        if_cases IsOneLine (n == 15) _ _ (λ _. omega arith)
                          λ _. digit_text-IsOneLine n

control_text-IsOneLine : (n : ℕ) → IsOneLine (control_text n)
unfolding control_text
control_text-IsOneLine n =
    template-IsOneLine ("\\u00" ∷ (if ltb n 16 then "0" else "1") ∷ hex_digit (n % 16) ∷ []) (
      omega arith,
      (
        if_cases IsOneLine (ltb n 16) "0" "1" (λ _. omega arith) (λ _. omega arith),
        (hex_digit-IsOneLine (n % 16), tt),
      ),
    )

json_char-IsOneLine : (c : Char) → IsOneLine (json_char c)
unfolding json_char
json_char-IsOneLine c =
    if_cases IsOneLine (code c == 34) _ _ (λ _. omega arith)
      λ _.
        if_cases IsOneLine (code c == 92) _ _ (λ _. omega arith)
          λ _.
            if_cases IsOneLine (code c == 8) _ _ (λ _. omega arith)
              λ _.
                if_cases IsOneLine (code c == 9) _ _ (λ _. omega arith)
                  λ _.
                    if_cases IsOneLine (code c == 10) _ _ (λ _. omega arith)
                      λ not_feed.
                        if_cases IsOneLine (code c == 12) _ _ (λ _. omega arith)
                          λ _.
                            if_cases IsOneLine (code c == 13) _ _ (λ _. omega arith)
                              λ not_return.
                                if_cases IsOneLine (ltb (code c) 32) _ _
                                  (λ _. control_text-IsOneLine (code c))
                                  λ _. (ground (arith, not_feed), ground (arith, not_return), tt)

json_chars-IsOneLine : (s : String) → IsOneLine (json_chars s)
unfolding json_chars
json_chars-IsOneLine String.[] = tt
json_chars-IsOneLine (String.◌∷◌ c s) =
    append-IsOneLine (json_char c) (json_chars s) (json_char-IsOneLine c) (json_chars-IsOneLine s)

json_text-IsOneLine : (s : String) → IsOneLine (json_text s)
unfolding json_text
json_text-IsOneLine s =
    template-IsOneLine ("\"" ∷ json_chars s ∷ "\"" ∷ [])
      (omega arith, (json_chars-IsOneLine s, (omega arith, tt)))

members-IsOneLine : (ms : List (String × String)) → All IsOneLine (map member_text ms)
members-IsOneLine [] = tt
members-IsOneLine ((key, value) ∷ ms) = (
  template-IsOneLine (json_text key ∷ ":" ∷ json_text value ∷ [])
      (json_text-IsOneLine key, (omega arith, (json_text-IsOneLine value, tt))),
  members-IsOneLine ms,
)

object_text-IsOneLine : (ms : List (String × String)) → IsOneLine (object_text ms)
unfolding object_text
object_text-IsOneLine ms = template-IsOneLine ("{" ∷ join "," (map member_text ms) ∷ "}" ∷ []) (
  omega arith,
  (join-IsOneLine "," (map member_text ms) (omega arith) (members-IsOneLine ms), (omega arith, tt)),
)

abbrev pub event_of : Frame → String
event_of (status_frame id status phone) = "status"
event_of (qr_frame id qr) = "qr"
event_of (paired_frame id phone) = "paired"
event_of (failed_frame id) = "failed"
event_of ping = "ping"

-- Every frame but a ping is one event of the stream, on two lines: its name, and its data, which has
-- no line break whatever the id, the QR code and the phone number hold.
pub frame_text-lines :
    (f : Frame)
    → f ≢ ping
    → (frame_text f
        ≡ template ("event: " ∷ event_of f ∷ "\ndata: " ∷ object_text (members_of f) ∷ "\n\n" ∷ []))
      × IsOneLine (event_of f)
      × IsOneLine (object_text (members_of f))
unfolding frame_text format_event
frame_text-lines (status_frame id status phone) h =
    (refl, omega arith, object_text-IsOneLine (members_of (status_frame id status phone)))
frame_text-lines (qr_frame id qr) h =
    (refl, omega arith, object_text-IsOneLine (members_of (qr_frame id qr)))
frame_text-lines (paired_frame id phone) h =
    (refl, omega arith, object_text-IsOneLine (members_of (paired_frame id phone)))
frame_text-lines (failed_frame id) h =
    (refl, omega arith, object_text-IsOneLine (members_of (failed_frame id)))
frame_text-lines ping h = absurd (h refl)
