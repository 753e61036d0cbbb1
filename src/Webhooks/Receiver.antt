-- ===== src/Webhooks/Receiver.antt =====
-- baileys/scripts/webhook-receiver.ts: the reference consumer of the webhooks, and that it takes what
-- the dispatcher posts.
--
-- A received request holds what the consumer reads of its headers: `timestamp` is the number that
-- `Number` makes of the header, if it is finite.
use Prim.Native.Char.{code}
use text.Mathlib.TextLemmas.{append-nil, cons-append, nil-append}
use whatsapp_auto_send.Prelude.{
  ℕ, ◌+◌, ◌-◌, ◌*◌, ◌<◌, ◌↔◌, String, Bool, true, false, ◌&&◌, Option, none, some, [], ◌∷◌, ◌≡◌,
  refl, ap, ◌∙◌, arith, ◌==◌, nat_eq, string_eq, ==-true_of_eq, if◌then◌else◌, ltb, template, ◌<>◌,
}
use whatsapp_auto_send.Sessions.Events.{SessionEvent}
use whatsapp_auto_send.Webhooks.{Request, Options, request_of, sign_payload, verify_signature}
use whatsapp_auto_send.Webhooks.Signing.{verify_signature_iff}

abbrev pub max_age_ms : ℕ
max_age_ms = 5 * 60_000

pub record Received : Type 0 where
  pub timestamp : Option ℕ
  pub signature : Option String
  pub body : String

-- What stands behind a prefix, if the text begins with it.
unfoldable pub behind_prefix : String → String → Option String
behind_prefix String.[] s = some s
behind_prefix (String.◌∷◌ c p) String.[] = none
behind_prefix (String.◌∷◌ c p) (String.◌∷◌ d s) =
    if code c == code d then behind_prefix p s else none

-- `header.replace(/^sha256=/, '')`
unfoldable pub bare_signature : String → String
unfolding behind_prefix
bare_signature header = elim (behind_prefix "sha256=" header) [ none ↦ header | some s ↦ s ]

-- `String(header ?? '')`
abbrev header_text : Option String → String
header_text none = ""
header_text (some s) = s

-- `Math.abs(now - timestamp) < MAX_AGE_MS`
abbrev pub is_fresh : Option ℕ → ℕ → Bool
is_fresh none now = false
is_fresh (some timestamp) now = ltb ((now - timestamp) + (timestamp - now)) max_age_ms

abbrev or_zero : Option ℕ → ℕ
or_zero none = 0
or_zero (some n) = n

module _ (digest : String → String → String) where
  -- The status of the answer; `verifySignature` is called for a fresh request only.
  unfoldable pub receive : String → ℕ → Received → ℕ
  unfolding bare_signature
  receive secret now r =
      let valid =
        is_fresh r.timestamp now
        && verify_signature digest secret (or_zero r.timestamp) r.body
            (bare_signature (header_text r.signature)) in
      if valid then 200 else 401

-- A posted request as it comes in.
abbrev pub arrived : Request → Received
arrived r = record { timestamp = some r.timestamp; signature = some r.signature; body = r.body }

behind_prefix-append : (p s : String) → behind_prefix p (p <> s) ≡ some s
unfolding behind_prefix
behind_prefix-append String.[] s = ap (behind_prefix String.[]) (nil-append s)
behind_prefix-append (String.◌∷◌ c p) s =
    ap (behind_prefix (String.◌∷◌ c p)) (cons-append c p s)
    ∙ rw (==-true_of_eq (code c) (code c) refl) (behind_prefix-append p s)

bare_signature-template : (s : String) → bare_signature (template ("sha256=" ∷ s ∷ [])) ≡ s
unfolding bare_signature template
bare_signature-template s =
    ap (λ t. bare_signature ("sha256=" <> t)) (append-nil s)
    ∙ rw (bare_signature, behind_prefix-append "sha256=" s)

module _ (digest : String → String → String) (json : SessionEvent → String)
    (options : Options) where
  -- A consumer that has the secret takes a request that the dispatcher posts, at any time less than
  -- five minutes from the one that it was posted at, and refuses it at every other time.
  pub receive-request_of :
      (event : SessionEvent) (posted now : ℕ)
      → (receive digest options.secret now (arrived (request_of digest json options event posted))
          ≡ 200)
        ↔ ((now - posted) + (posted - now) < max_age_ms)
  unfolding receive request_of
  receive-request_of event posted now =
      let signature = sign_payload digest options.secret posted (json event) in
      let accepted : verify_signature digest options.secret posted (json event)
            (bare_signature (template ("sha256=" ∷ signature ∷ [])))
          ≡ true =
        (verify_signature_iff digest options.secret posted (json event)
            (bare_signature (template ("sha256=" ∷ signature ∷ [])))).1
          (bare_signature-template signature) in
      (λ h. ground (arith, accepted, h), λ h. ground (arith, accepted, h))
