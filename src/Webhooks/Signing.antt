-- ===== src/Webhooks/Signing.antt =====
-- What a signature of signature.ts binds.
use whatsapp_auto_send.Prelude.{
  ℕ, String, true, ◌≡◌, ◌≢◌, ◌↔◌, ◌⊎◌, inl, inr, refl, ap, sym, ◌∙◌, arith, nat_eq, string_eq,
  template, decimal, is_digit, ◌<>◌,
}
use text.Mathlib.TextLemmas.{append-nil, cons-append, nil-append}
use whatsapp_auto_send.Prelude.Decimals.{read_digits, read_digits-decimal}
use whatsapp_auto_send.Webhooks.{signed_text, sign_payload, verify_signature}

-- The signed text can be taken apart: the timestamp ends at the first full stop.
signed_text-stop :
    (timestamp : ℕ) (body : String)
    → signed_text timestamp body ≡ decimal timestamp <> String.◌∷◌ "." body
unfolding signed_text template
signed_text-stop timestamp body =
    ap (λ s. decimal timestamp <> s)
      (ap (λ s. "." <> s) (append-nil body)
        ∙ cons-append "." String.[] body
        ∙ ap (String.◌∷◌ ".") (nil-append body))

signed_text-read :
    (timestamp : ℕ) (body : String)
    → read_digits 0 (signed_text timestamp body) ≡ (timestamp, String.◌∷◌ "." body)
unfolding read_digits is_digit
signed_text-read timestamp body =
    ap (read_digits 0) (signed_text-stop timestamp body)
    ∙ read_digits-decimal timestamp (String.◌∷◌ "." body) refl

abbrev behind : String → String
behind String.[] = String.[]
behind (String.◌∷◌ c s) = s

-- Signed texts are equal only if the timestamps and the bodies are.
pub signed_text_inj :
    (t u : ℕ) (a b : String) → signed_text t a ≡ signed_text u b → (t ≡ u) × (a ≡ b)
signed_text_inj t u a b h =
    let same : (t, String.◌∷◌ "." a) ≡ (u, String.◌∷◌ "." b) =
      sym (signed_text-read t a) ∙ ap (read_digits 0) h ∙ signed_text-read u b in
    (ap (λ p. p.0) same, ap (λ p. behind p.1) same)

module _ (digest : String → String → String) where
  -- A signature is accepted exactly when it is the one that `signPayload` makes with the same
  -- secret, for the same timestamp and body.
  pub verify_signature_iff :
      (secret : String) (timestamp : ℕ) (body signature : String)
      → (verify_signature digest secret timestamp body signature ≡ true)
        ↔ (signature ≡ sign_payload digest secret timestamp body)
  unfolding verify_signature
  verify_signature_iff secret timestamp body signature =
      (λ h. ground (arith, h), λ h. ground (arith, h))

  -- Two texts with one digest.
  abbrev pub Collides : String → String → String → Type 0
  Collides secret x y = (x ≢ y) × (digest secret x ≡ digest secret y)

  -- A signature that was made for one timestamp and body and that is accepted for another shows two
  -- signed texts with the same digest under the secret; else timestamp and body are the signed ones.
  pub verify_signature-bound :
      (secret : String) (t u : ℕ) (a b : String)
      → verify_signature digest secret u b (sign_payload digest secret t a) ≡ true
      → ((t ≡ u) × (a ≡ b)) ⊎ Collides secret (signed_text t a) (signed_text u b)
  unfolding sign_payload
  verify_signature-bound secret t u a b h =
      elim (string_eq.dec (signed_text t a) (signed_text u b)) [
        | yes same ↦ inl (signed_text_inj t u a b same)
        | no differ ↦
            inr (differ, (verify_signature_iff secret u b (sign_payload digest secret t a)).0 h)
      ]
