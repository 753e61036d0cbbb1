-- ===== src/Sessions/Manager/Backoff.antt =====
-- baileys/src/sessions/manager.ts: the delay before a reconnect. The random number is `k` parts of
-- 2^53, and the product is rounded exactly, where the program computes in floating point.
use whatsapp_auto_send.Prelude.{ℕ, zero, suc, ◌+◌, ◌*◌, ◌/◌, ◌^◌, min}

abbrev pub reconnect_base_ms : ℕ
reconnect_base_ms = 2_000

abbrev pub reconnect_max_ms : ℕ
reconnect_max_ms = 300_000

abbrev pub random_scale : ℕ
random_scale = 9_007_199_254_740_992

-- min(2000 · 2^(attempt − 1), 300000); at attempt 0 the power is one half.
unfoldable pub exponential : ℕ → ℕ
exponential zero = 1_000
exponential (suc n) = min (reconnect_base_ms * 2 ^ n) reconnect_max_ms

-- round(e · (0.8 + 0.4 · k / 2^53))
unfoldable pub jittered : ℕ → ℕ → ℕ
jittered e k = (2 * (e * (8 * random_scale + 4 * k)) + 10 * random_scale) / (20 * random_scale)

unfoldable pub backoff_delay : ℕ → ℕ → ℕ
unfolding exponential jittered
backoff_delay attempt k = jittered (exponential attempt) k
