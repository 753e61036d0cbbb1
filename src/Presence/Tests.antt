-- ===== src/Presence/Tests.antt =====
-- Runs of wa/presence.ts, and its bounds at a concrete text.
use whatsapp_auto_send.Prelude.{◌≡◌, refl, text_runs}
use whatsapp_auto_send.Presence.{typing_delay_for}

short : typing_delay_for "ok" ≡ 600
unfolding typing_delay_for text_runs
short = refl
