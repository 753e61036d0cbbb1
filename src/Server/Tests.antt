-- ===== src/Server/Tests.antt =====
-- Runs of server.ts, and the theorem on its errors at one.
use whatsapp_auto_send.Prelude.{false, ◌≡◌, refl, nat_eq}
use whatsapp_auto_send.Server.{health}

down : (health false 0 2_600).0 ≡ 503
unfolding health
down = refl
