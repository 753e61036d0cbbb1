-- ===== src/Phone/Digits.antt =====
-- What `normalisePhoneNumber` accepts.
use Prim.Native.Char.{Char, code}
use Prim.Native.String.{String}
use text.Mathlib.TextLemmas.{append_cancel_right}
use whatsapp_auto_send.Prelude.{
  ℕ, ◌≤◌, ◌≡◌, refl, ap, ◌∙◌, sym, ◌≢◌, ◌↔◌, true, false, arith, ok, All, codes, is_digit, is_space,
  trim, trim_start, trim_end, trim_cons, only_digits, utf16_length, starts_with, Bool-cases, inl,
  inr, some, head?, Result-cases, ◌<>◌,
}
use whatsapp_auto_send.Phone.{normalise_phone_number, to_user_jid, min_digits, max_digits}

-- Trimming removes no digit.
is_space-is_digit : (c : ℕ) → is_space c ≡ true → is_digit c ≡ false
unfolding is_space is_digit
is_space-is_digit c h = ground arith

only_digits-trim_start : (s : String) → only_digits (trim_start s) ≡ only_digits s
unfolding only_digits trim_start
only_digits-trim_start String.[] = refl
only_digits-trim_start (String.◌∷◌ c s) =
    ground (arith, only_digits-trim_start s, is_space-is_digit (code c))

only_digits-trim_cons :
    (c : Char) (s : String) → only_digits (trim_cons c s) ≡ only_digits (String.◌∷◌ c s)
unfolding only_digits trim_cons
only_digits-trim_cons c String.[] = elim (Bool-cases (is_space (code c))) [
  | inl p ↦ rw (p, is_space-is_digit (code c) p)
  | inr p ↦ rw p
]
only_digits-trim_cons c (String.◌∷◌ d s) = refl

only_digits_cons :
    (c : Char) (s t : String)
    → only_digits s ≡ only_digits t
    → only_digits (String.◌∷◌ c s) ≡ only_digits (String.◌∷◌ c t)
unfolding only_digits
only_digits_cons c s t h = rw h

only_digits-trim_end : (s : String) → only_digits (trim_end s) ≡ only_digits s
unfolding trim_end
only_digits-trim_end String.[] = refl
only_digits-trim_end (String.◌∷◌ c s) =
    only_digits-trim_cons c (trim_end s) ∙ only_digits_cons c _ _ (only_digits-trim_end s)

only_digits-trim : (s : String) → only_digits (trim s) ≡ only_digits s
unfolding trim
only_digits-trim s = only_digits-trim_end (trim_start s) ∙ only_digits-trim_start s

abbrev pub AllDigits : String → Type 0
AllDigits s = All (λ c. is_digit c ≡ true) (codes s)

only_digits-AllDigits : (s : String) → AllDigits (only_digits s)
unfolding only_digits
only_digits-AllDigits String.[] = tt
only_digits-AllDigits (String.◌∷◌ c s) = elim (Bool-cases (is_digit (code c))) [
  | inl p ↦ rw p (p, only_digits-AllDigits s)
  | inr p ↦ rw p (only_digits-AllDigits s)
]

only_digits_of_AllDigits : (s : String) → AllDigits s → only_digits s ≡ s
unfolding only_digits
only_digits_of_AllDigits String.[] h = refl
only_digits_of_AllDigits (String.◌∷◌ c s) (p, h) =
    rw p (ap (String.◌∷◌ c) (only_digits_of_AllDigits s h))

-- The head of the number is not the digit 0.
abbrev pub NoLeadingZero : String → Type 0
NoLeadingZero s = head? (codes s) ≢ some 48

-- A full international number, in digits alone.
pub record IsInternational (digits : String) : Type 0 where
  pub at_least : min_digits ≤ utf16_length digits
  pub at_most : utf16_length digits ≤ max_digits
  pub no_zero : NoLeadingZero digits

starts_with_zero : (s : String) → NoLeadingZero s → starts_with s "0" ≡ false
unfolding starts_with
starts_with_zero String.[] h = refl
starts_with_zero (String.◌∷◌ c s) h = ground arith

starts_with_two : (s : String) → NoLeadingZero s → starts_with s "00" ≡ false
unfolding starts_with
starts_with_two String.[] h = refl
starts_with_two (String.◌∷◌ c s) h = ground arith

NoLeadingZero-of : (s : String) → starts_with s "0" ≡ false → NoLeadingZero s
unfolding starts_with
NoLeadingZero-of String.[] h = cc
NoLeadingZero-of (String.◌∷◌ c s) h = ground arith

accepts :
    (input d : String)
    → IsInternational d
    → d ≡ only_digits input
    → normalise_phone_number input ≡ ok d
unfolding normalise_phone_number
accepts input d v e = ground (
  arith,
  only_digits-trim input,
  v.at_least,
  v.at_most,
  starts_with_zero d v.no_zero,
  starts_with_two d v.no_zero,
)

accepted :
    (input d : String)
    → normalise_phone_number input ≡ ok d
    → (d ≡ only_digits input) × IsInternational d
unfolding normalise_phone_number
accepted input d h =
    ground (arith, only_digits-trim input, NoLeadingZero-of (only_digits (trim input)))

-- A number is accepted exactly when its digits are 8 to 15 and do not begin with 0, and what comes
-- back is those digits, with every other character of the input dropped.
pub normalise_phone_number_iff :
    (input d : String)
    → (normalise_phone_number input ≡ ok d) ↔ ((d ≡ only_digits input) × IsInternational d)
normalise_phone_number_iff input d = (accepted input d, λ h. accepts input d h.1 h.0)

-- An accepted number consists of digits, and normalising it again gives it back.
pub normalise_phone_number_stable :
    (input d : String)
    → normalise_phone_number input ≡ ok d
    → AllDigits d × (normalise_phone_number d ≡ ok d)
normalise_phone_number_stable input d h =
    let (e, v) = accepted input d h in
    let digits : AllDigits d = rw e (only_digits-AllDigits input) in
    (digits, accepts d d v (sym (only_digits_of_AllDigits d digits)))

to_user_jid-digits :
    (input jid : String) → to_user_jid input ≡ ok jid → jid ≡ only_digits input <> "@s.whatsapp.net"
unfolding to_user_jid
to_user_jid-digits input jid h = elim (Result-cases (normalise_phone_number input)) [
  | inl (d, e) ↦ ground (arith, e, accepted input d e)
  | inr (m, e) ↦ ground (arith, e)
]

-- Two inputs get the same address only if they have the same digits.
pub to_user_jid_inj :
    (a b jid : String)
    → to_user_jid a ≡ ok jid
    → to_user_jid b ≡ ok jid
    → only_digits a ≡ only_digits b
to_user_jid_inj a b jid p q =
    append_cancel_right _ _ _ (sym (to_user_jid-digits a jid p) ∙ to_user_jid-digits b jid q)
