-- ===== src/Presence.antt =====
-- baileys/src/wa/presence.ts and footer.ts: the typing indicator before a send, and the time stamp
-- under the text.
mod Tests
use whatsapp_auto_send.Prelude.{
  ℕ, ◌+◌, ◌*◌, ◌≤◌, ◌≡◌, String, min, max, [], ◌∷◌, ok, err, arith, utf16_length, template,
}
use whatsapp_auto_send.Timeout.{Work, settles, never, waited, waited-le}

abbrev min_typing_ms : ℕ
min_typing_ms = 600

abbrev max_typing_ms : ℕ
max_typing_ms = 2_500

abbrev typing_ms_per_char : ℕ
typing_ms_per_char = 35

unfoldable pub typing_delay_for : String → ℕ
typing_delay_for text =
    min max_typing_ms (max min_typing_ms (utf16_length text * typing_ms_per_char))

-- The delay is between 600 ms and 2500 ms for every text, and it is the 35 ms for each character
-- wherever these lie in that range.
pub typing_delay_for_bounds :
    (text : String)
    → (600 ≤ typing_delay_for text)
      × (typing_delay_for text ≤ 2_500)
      × (600 ≤ utf16_length text * 35
          → utf16_length text * 35 ≤ 2_500
          → typing_delay_for text ≡ utf16_length text * 35)
unfolding typing_delay_for
typing_delay_for_bounds text = omega arith

after_work : ℕ → Work (Unit {0}) → Work (Unit {0})
after_work d (settles t r) = settles (d + t) r
after_work d never = never

-- The promise that `simulateTyping` races: composing, the delay, paused.
typing_work : String → Work (Unit {0}) → Work (Unit {0}) → Work (Unit {0})
unfolding after_work
typing_work text never paused = never
typing_work text (settles t (err e)) paused = settles t (err e)
typing_work text (settles t (ok _)) paused = after_work (t + typing_delay_for text) paused

-- Every failure is caught, so what is left of a call is the time that it took.
unfoldable pub simulate_typing : String → ℕ → Work (Unit {0}) → Work (Unit {0}) → ℕ
unfolding typing_work
simulate_typing text timeout_ms composing paused =
    waited timeout_ms (typing_work text composing paused)

pub simulate_typing-le :
    (text : String) (timeout_ms : ℕ) (composing paused : Work (Unit {0}))
    → simulate_typing text timeout_ms composing paused ≤ timeout_ms
unfolding simulate_typing
simulate_typing-le text timeout_ms composing paused = waited-le timeout_ms _

-- The text that leaves; `stamp` is `jakartaTimestamp(at)`, which `Intl` computes.
unfoldable pub with_jakarta_footer : String → String → String
with_jakarta_footer text stamp = template (text ∷ "\n\n" ∷ stamp ∷ " WIB" ∷ [])
