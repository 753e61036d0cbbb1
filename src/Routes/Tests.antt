-- ===== src/Routes/Tests.antt =====
-- Runs of routes/sessions.ts on a gateway with one session, and the theorem on its owners there.
use whatsapp_auto_send.Prelude.{String, some, [], ◌≡◌, ◌≢◌, refl, text_runs, ne_by_test, string_eq}
use whatsapp_auto_send.Sessions.Repository.{get_session, find_row}
use whatsapp_auto_send.Sessions.State.{State}
use whatsapp_auto_send.Sessions.Manager.Samples.{entry_one, state_one, row_one}

abbrev live : State
live = state_one entry_one []

row_there : get_session live.db "s1" ≡ some row_one
unfolding get_session find_row text_runs
row_there = refl

abbrev u1 : String
u1 = "u1"

abbrev u2 : String
u2 = "u2"

another : u1 ≢ u2
another = ne_by_test u1 u2 refl
