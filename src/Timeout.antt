-- ===== src/Timeout.antt =====
-- baileys/src/wa/timeout.ts: a promise raced against a timer.
use whatsapp_auto_send.Prelude.{ℕ, ◌≤◌, ltb, if◌then◌else◌, Result, err, arith, String, min}
use whatsapp_auto_send.Errors.{Thrown, api, upstream_timeout_error}

-- A promise: when it settles, in milliseconds from the call, and how.
pub data Work {ℓ} (A : Type ℓ) : Type ℓ where
  settles : ℕ → Result Thrown A → Work A
  never : Work A

module _ {ℓ} {A : Type ℓ} where
  -- What the caller of `withTimeout` gets.
  unfoldable pub with_timeout : String → ℕ → Work A → Result Thrown A
  with_timeout operation ms (settles t r) =
      if ltb t ms then r else err (api (upstream_timeout_error operation ms))
  with_timeout operation ms never = err (api (upstream_timeout_error operation ms))

  -- How long it waited.
  unfoldable pub waited : ℕ → Work A → ℕ
  waited ms (settles t r) = min t ms
  waited ms never = ms

  pub waited-le : (ms : ℕ) (w : Work A) → waited ms w ≤ ms
  unfolding waited
  waited-le ms (settles t r) = omega arith
  waited-le ms never = omega arith

pub record Timeouts : Type 0 where
  pub on_whatsapp : ℕ
  pub send_message : ℕ
  pub request_pairing_code : ℕ
  pub logout : ℕ
  pub fetch_version : ℕ
  pub presence : ℕ

abbrev pub wa_timeouts : Timeouts
wa_timeouts = record {
  on_whatsapp = 15_000;
  send_message = 30_000;
  request_pairing_code = 20_000;
  logout = 10_000;
  fetch_version = 15_000;
  presence = 5_000;
}
