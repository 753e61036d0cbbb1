-- ===== src/Routes/Owners.antt =====
-- baileys/src/routes/sessions.ts: a session of another owner.
use whatsapp_auto_send.Prelude.{
  String, none, some, ok, err, ◌≡◌, ◌≢◌, ◌⊎◌, inl, inr, arith, string_eq, option_eq, ==-false_of_ne,
}
use whatsapp_auto_send.Errors.{api, session_not_found_error}
use whatsapp_auto_send.Database.{SessionRow, Db}
use whatsapp_auto_send.Sessions.Repository.{get_session, get_owned_session}
use whatsapp_auto_send.Sessions.State.{State}
use whatsapp_auto_send.Routes.{OwnedRoute, handle_owned, load_owned_session}

-- The session is missing, or it has another owner, or none.
abbrev pub IsForeign : Db → String → String → Type 0
IsForeign db id owner =
    (get_session db id ≡ none)
    ⊎ ((row : SessionRow) × (get_session db id ≡ some row) × (row.owner_id ≢ some owner))

foreign_row :
    (db : Db) (id owner : String) → IsForeign db id owner → get_owned_session db id owner ≡ none
unfolding get_owned_session get_session
foreign_row db id owner (inl h) = ground (arith, h)
foreign_row db id owner (inr (row, h, n)) =
    rw (get_owned_session, h, ==-false_of_ne row.owner_id (some owner) n)

foreign_load :
    (s : State) (id owner : String)
    → IsForeign s.db id owner
    → load_owned_session s id owner ≡ err (api (session_not_found_error id))
unfolding load_owned_session
foreign_load s id owner h = rw (load_owned_session, foreign_row s.db id owner h)

-- Whatever a route that takes an owner is asked to do to a session of another owner, nothing changes,
-- and the answer is the one for a session that does not exist.
pub handle_owned-foreign :
    (route : OwnedRoute) (s : State) (id owner : String)
    → IsForeign s.db id owner
    → handle_owned route id (ok owner) s ≡ (err (api (session_not_found_error id)), s)
unfolding handle_owned
handle_owned-foreign route s id owner h = rw (handle_owned, foreign_load s id owner h)
