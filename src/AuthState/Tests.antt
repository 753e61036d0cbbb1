-- ===== src/AuthState/Tests.antt =====
-- Runs of the key store of wa/auth-state.ts, and its theorem there.
use whatsapp_auto_send.Prelude.{
  String, true, none, some, [], ◌∷◌, ◌==◌, ◌≡◌, string_eq, if◌then◌else◌,
}
use whatsapp_auto_send.Database.{Db}
use whatsapp_auto_send.AuthState.{SignalDataSet, find_key, set_keys}
use whatsapp_auto_send.AuthState.Keys.{or_else, written, deleted, find_key-set_keys}

abbrev one_key : Db
one_key = record {
  sessions = [];
  creds = [];
  keys = record { session_id = "s1"; key_type = "session"; key_id = "a"; key_data = "1" } ∷ [];
  messages = [];
  next_message_id = 1;
}

abbrev changes : SignalDataSet
changes = ("session", ("a", none) ∷ ("b", some "2") ∷ []) ∷ []

abbrev s1 : String
s1 = "s1"

find_key-set_keys_example :
    find_key "s1" "session" "b" (set_keys one_key "s1" changes true).1.keys ≡ (
      if s1 == s1
      then (if deleted "s1" "session" "b" changes
          then none
          else or_else
              (written "s1" "session" "b" changes)
              (find_key "s1" "session" "b" one_key.keys))
      else find_key "s1" "session" "b" one_key.keys)
find_key-set_keys_example = find_key-set_keys "s1" "session" "b" one_key "s1" changes
