-- ===== src/Sessions/Manager/Awaits/Races.antt =====
-- Two calls of manager.ts that wait at once: what `connect` reads before its `await` does not hold
-- after it.
use whatsapp_auto_send.Prelude.{
  ℕ, suc, String, false, none, some, List, [], ◌∷◌, ◌++◌, ◌≡◌, ◌≢◌, refl, ap, ◌∙◌, arith,
  ==-false_of_ne, length, get_elem?, string_eq, Option-cases, inl, inr,
}
use whatsapp_auto_send.Prelude.Dict.{put, get-put_self}
use whatsapp_auto_send.Database.{SessionRow, Creds, logged_out, session_status_eq}
use whatsapp_auto_send.Sessions.Repository.{get_session}
use whatsapp_auto_send.Sessions.State.{Entry, State, entry_at, entry_of, modify, with_place}
use whatsapp_auto_send.Sessions.Manager.{Outside, make_socket}
use whatsapp_auto_send.Sessions.Manager.Heap.{get_elem?-modify_at}
use whatsapp_auto_send.Sessions.Manager.Invariant.{entry_of-heap}
use whatsapp_auto_send.Sessions.Manager.Frame.{entry_of-modified}
use whatsapp_auto_send.Sessions.Manager.SecondSocket.{made_state}
use whatsapp_auto_send.Sessions.Manager.Lifecycle.{new_entry}
use whatsapp_auto_send.Sessions.Manager.Awaits.{
  looking, loading, awaited, begin_connect, found_row, look, go_on, World, Action, calls_connect,
  resumes, resume, pick, act, act_all, with_tasks,
}
use whatsapp_auto_send.Sessions.Manager.Awaits.Together.{idle}

-- The two calls, then their four pieces: each has its row before either makes its socket.
abbrev pub two_connects : String → Outside → List Action
two_connects id out =
    calls_connect id
    ∷ calls_connect id
    ∷ resumes 0 out
    ∷ resumes 0 out
    ∷ resumes 0 out
    ∷ resumes 0 out
    ∷ []

module _ (s : State) (id : String) (ref : ℕ) (e : Entry) (here : entry_of s id ≡ some (ref, e))
    (apart : e.socket ≡ none) where
  abbrev woken : State
  woken = modify ref (λ x. record x { closing = false }) s

  woken_entry : entry_of woken id ≡ some (ref, record e { closing = false })
  woken_entry =
      entry_of-modified s woken id ref e (λ x. record x { closing = false }) refl refl here

  module _ (row : SessionRow) (v : ℕ) (found : get_session s.db id ≡ some row)
      (allowed : row.status ≢ logged_out) (known : s.version ≡ some v) where
    look-apart : look id s ≡ (woken, some (loading ref))
    unfolding look found_row
    look-apart =
        rw (look, found, ==-false_of_ne row.status logged_out allowed, found_row, here, apart)
          (ap (λ o. (woken, some (awaited o ref))) known)

-- What a socket that is made adds to the state.
module _ (s : State) (ref : ℕ) (e : Entry) (here : entry_at s ref ≡ some e) (fresh : Creds) where
  made-sockets :
      (make_socket ref fresh s).open_sockets ≡ s.open_sockets ++ ((s.next_handle, ref) ∷ [])
  made-sockets = ap (λ t. t.open_sockets) (made_state s ref e here fresh)

  made-handle : (make_socket ref fresh s).next_handle ≡ suc s.next_handle
  made-handle = ap (λ t. t.next_handle) (made_state s ref e here fresh)

  made-entry :
      entry_at (make_socket ref fresh s) ref ≡ some (record e { socket = some s.next_handle })
  made-entry =
      ap (λ t. entry_at t ref) (made_state s ref e here fresh)
      ∙ get_elem?-modify_at ref (λ x. record x { socket = some s.next_handle }) s.heap e here

-- Two calls that both wait to load make two sockets.
made-twice :
    (s : State) (ref : ℕ) (e : Entry) (fresh : Creds)
    → entry_at s ref ≡ some e
    → (make_socket ref fresh (make_socket ref fresh s)).open_sockets
      ≡ (s.open_sockets ++ ((s.next_handle, ref) ∷ [])) ++ ((suc s.next_handle, ref) ∷ [])
made-twice s ref e fresh here =
    let one = make_socket ref fresh s in
    made-sockets one ref (record e { socket = some s.next_handle }) (made-entry s ref e here fresh)
      fresh
    ∙ ap (λ ks. ks ++ ((one.next_handle, ref) ∷ [])) (made-sockets s ref e here fresh)
    ∙ ap (λ h. (s.open_sockets ++ ((s.next_handle, ref) ∷ [])) ++ ((h, ref) ∷ []))
        (made-handle s ref e here fresh)

-- The session has no live entry, or one whose socket is gone or not made yet.
abbrev pub NoSocket : State → String → Type 0
NoSocket s id = (ref : ℕ) (e : Entry) → entry_of s id ≡ some (ref, e) → e.socket ≡ none

-- Where the entry of an id is, or will be.
abbrev pub place_or_new : State → String → ℕ
place_or_new s id = elim (entry_of s id) [ none ↦ length s.heap | some (ref, e) ↦ ref ]

get_elem?-append_last {ℓ} :
    {A : Type ℓ} (xs : List A) (a : A) → get_elem? (xs ++ a ∷ []) (length xs) ≡ some a
get_elem?-append_last [] a = refl
get_elem?-append_last (x ∷ xs) a = get_elem?-append_last xs a

module _ (s : State) (id : String) (row : SessionRow) where
  abbrev pub entered : State
  entered = record s {
    heap = s.heap ++ (new_entry row id ∷ []);
    entries = put id (length s.heap) s.entries;
  }

  pub entered_entry : entry_of entered id ≡ some (length s.heap, new_entry row id)
  unfolding entry_of
  entered_entry =
      rw (get-put_self id (length s.heap) s.entries, with_place)
        (rw (get_elem?-append_last s.heap (new_entry row id)))

module _ (s : State) (id : String) (row : SessionRow) (v : ℕ) (out : Outside)
    (found : get_session s.db id ≡ some row) (allowed : row.status ≢ logged_out)
    (known : s.version ≡ some v) where
  -- The first call has gone on to its socket, and the second one has still to look at its row.
  second_half :
      (ref : ℕ) (e : Entry)
      → entry_of s id ≡ some (ref, e)
      → e.socket ≡ none
      → (act_all
          (record { state = s; tasks = looking id ∷ loading ref ∷ [] })
          (resumes 0 out ∷ resumes 0 out ∷ resumes 0 out ∷ [])).state.open_sockets
        ≡ (s.open_sockets ++ ((s.next_handle, ref) ∷ [])) ++ ((suc s.next_handle, ref) ∷ [])
  unfolding act_all act resume pick go_on
  second_half ref e here apart =
      ap
        (λ p.
          (act_all (with_tasks (loading ref ∷ []) p)
            (resumes 0 out ∷ resumes 0 out ∷ [])).state.open_sockets)
        (look-apart s id ref e here apart row v found allowed known)
      ∙ made-twice (woken s id ref e here apart) ref (record e { closing = false }) out.fresh
          (entry_of-heap (woken s id ref e here apart) id ref (record e { closing = false })
            (woken_entry s id ref e here apart))

module _ (s : State) (id : String) (row : SessionRow) (v : ℕ) (out : Outside)
    (found : get_session s.db id ≡ some row) (allowed : row.status ≢ logged_out)
    (known : s.version ≡ some v) where
  first_piece : (s.shutting_down ≡ false) → begin_connect id s ≡ (s, some (looking id))
  unfolding begin_connect
  first_piece up = ground (arith, up)

  abbrev opened_twice : World
  opened_twice = act_all (idle s) (two_connects id out)

  to_half :
      (up : s.shutting_down ≡ false) (s' : State) (ref : ℕ)
      → look id s ≡ (s', some (loading ref))
      → opened_twice
        ≡ act_all
            (record { state = s'; tasks = looking id ∷ loading ref ∷ [] })
            (resumes 0 out ∷ resumes 0 out ∷ resumes 0 out ∷ [])
  unfolding act_all act resume pick go_on
  to_half up s' ref looked =
      ap
        (λ p.
          act_all (with_tasks [] p)
            (calls_connect id ∷ resumes 0 out ∷ resumes 0 out ∷ resumes 0 out ∷ resumes 0 out ∷ []))
        (first_piece up)
      ∙ ap
          (λ p.
            act_all (with_tasks (looking id ∷ []) p)
              (resumes 0 out ∷ resumes 0 out ∷ resumes 0 out ∷ resumes 0 out ∷ []))
          (first_piece up)
      ∙ ap
          (λ p.
            act_all (with_tasks (looking id ∷ []) p)
              (resumes 0 out ∷ resumes 0 out ∷ resumes 0 out ∷ []))
          looked

  pub look-new :
      entry_of s id ≡ none → look id s ≡ (entered s id row, some (loading (length s.heap)))
  unfolding look found_row
  look-new absent =
      rw (look, found, ==-false_of_ne row.status logged_out allowed, found_row, absent)
        (ap (λ o. (entered s id row, some (awaited o (length s.heap)))) known)

  -- Two calls of connect for one session that has no socket, where both have gone on from their row
  -- before either makes its socket, and nothing else comes between: both make a socket for the
  -- entry, and both are left open. This is so outside a shutdown, with a row that may connect and a
  -- known web version.
  pub connect-twice :
      s.shutting_down ≡ false
      → NoSocket s id
      → (act_all (idle s) (two_connects id out)).state.open_sockets
        ≡ (s.open_sockets ++ ((s.next_handle, place_or_new s id) ∷ []))
          ++ ((suc s.next_handle, place_or_new s id) ∷ [])
  connect-twice up apart = elim (Option-cases (entry_of s id)) [
    | inl absent ↦
        rw (place_or_new, absent)
          (ap (λ w. w.state.open_sockets)
              (to_half up (entered s id row) (length s.heap) (look-new absent))
            ∙ second_half (entered s id row) id row v out found allowed known (length s.heap)
                (new_entry row id) (entered_entry s id row) refl)
    | inr ((ref, e), here) ↦
        rw (place_or_new, here)
          (ap (λ w. w.state.open_sockets)
              (to_half up (woken s id ref e here (apart ref e here)) ref
                (look-apart s id ref e here (apart ref e here) row v found allowed known))
            ∙ second_half (woken s id ref e here (apart ref e here)) id row v out found allowed
                known ref (record e { closing = false })
                (woken_entry s id ref e here (apart ref e here)) (apart ref e here))
  ]
