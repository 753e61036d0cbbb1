-- ===== src/Sessions/Repository/Rows.antt =====
-- The queries on one row: what they give for its id, and for every other.
use whatsapp_auto_send.Prelude.{
  ℕ, String, Option, none, some, List, [], ◌∷◌, ◌==◌, string_eq, if◌then◌else◌, ◌≡◌, refl, arith,
}
use whatsapp_auto_send.Database.{SessionRow, SessionStatus, Db}
use whatsapp_auto_send.Sessions.Repository.{find_row, update_row, get_session, set_session_status}

abbrev pub map_row : (SessionRow → SessionRow) → Option SessionRow → Option SessionRow
map_row f none = none
map_row f (some r) = some (f r)

find_row-update_row :
    (j id : String) (f : SessionRow → SessionRow) (rs : List SessionRow)
    → ((r : SessionRow) → (f r).id ≡ r.id)
    → find_row j (update_row id f rs)
      ≡ (if j == id then map_row f (find_row j rs) else find_row j rs)
unfolding find_row update_row
find_row-update_row j id f [] keeps = ground arith
find_row-update_row j id f (r ∷ rs) keeps =
    ground (arith, keeps r, find_row-update_row j id f rs keeps)

pub get_session-set_session_status :
    (db : Db) (j id : String) (status : SessionStatus) (now : ℕ)
    → get_session (set_session_status db id status now) j ≡ (
        if j == id
        then map_row (λ r. record r { status = status; updated_at = now }) (get_session db j)
        else get_session db j)
unfolding get_session set_session_status
get_session-set_session_status db j id status now =
    find_row-update_row j id (λ r. record r { status = status; updated_at = now }) db.sessions
      (λ r. refl)
