-- ===== src/Sessions/Manager/Reopened.antt =====
-- manager.ts: a timer that was armed before WhatsApp logged its session out.
use whatsapp_auto_send.Prelude.{ℕ, false, none, some, [], ◌∷◌, ◌++◌, ◌≡◌, ◌≢◌, ap, ◌∙◌, get_elem?}
use whatsapp_auto_send.ErrorMapping.{logged_out_reason}
use whatsapp_auto_send.Database.{SessionRow, logged_out}
use whatsapp_auto_send.Sessions.Repository.{get_session}
use whatsapp_auto_send.Sessions.State.{Entry, State, entry_at, remove_handle}
use whatsapp_auto_send.Sessions.Manager.{Outside}
use whatsapp_auto_send.Sessions.Manager.Connection.{Update, on_closed}
use whatsapp_auto_send.Sessions.Manager.Lifecycle.{fire, timer_place}
use whatsapp_auto_send.Sessions.Manager.Heap.{get_elem?-modify_at, heap-set_status}
use whatsapp_auto_send.Sessions.Manager.Frame.{SameFrame, set_status-SameFrame}
use whatsapp_auto_send.Sessions.Manager.Reconnect.{next_handle-set_status}
use whatsapp_auto_send.Sessions.Manager.Recovery.{version-set_status}
use whatsapp_auto_send.Sessions.Manager.SecondSocket.{fires_one}
use whatsapp_auto_send.Sessions.Manager.SignedOut.{code_gone, now_out, closed_state}

module _ (s : State) (ref : ℕ) (e : Entry) (row : SessionRow) (u : Update)
    (here : entry_at s ref ≡ some e) (live : e.closing ≡ false) (up : s.shutting_down ≡ false)
    (logged_in : e.status ≢ logged_out) (found : get_session s.db e.id ≡ some row)
    (reason : u.status ≡ some logged_out_reason) where
  abbrev bare : State
  bare = code_gone s ref e row u here live up logged_in found reason

  abbrev signed_out : Entry
  signed_out = record e { socket = none; qr = none; status = logged_out }

  signed_out_entry : entry_at (on_closed ref u s) ref ≡ some signed_out
  signed_out_entry =
      ap (λ t. entry_at t ref) (closed_state s ref e row u here live up logged_in found reason)
      ∙ ap (λ es. get_elem? es ref) (heap-set_status ref bare logged_out)
      ∙ get_elem?-modify_at ref (λ x. record x { status = logged_out }) bare.heap
          (record e { socket = none; qr = none })
          (get_elem?-modify_at ref (λ x. record x { qr = none }) _ (record e { socket = none })
            (get_elem?-modify_at ref (λ x. record x { socket = none }) s.heap e here))

  -- A live session that has its row and is not logged out yet, and for which a reconnect timer is
  -- armed when WhatsApp logs it out: the timer stays, and when it fires, a socket is made for the
  -- session that is logged out. This is so outside a shutdown and with a known web version.
  pub on_closed-reopened :
      (v t : ℕ) (out : Outside)
      → s.version ≡ some v
      → timer_place t s.timers ≡ some ref
      → (fire t out (on_closed ref u s)).open_sockets
        ≡ remove_handle u.socket s.open_sockets ++ ((s.next_handle, ref) ∷ [])
  on_closed-reopened v t out known armed =
      let closed = closed_state s ref e row u here live up logged_in found reason in
      let frame = set_status-SameFrame ref bare logged_out in
      fires_one (on_closed ref u s) ref signed_out signed_out_entry v t out
        (ap (λ t. t.version) closed ∙ version-set_status ref bare logged_out ∙ known)
        (ap (λ t. t.shutting_down) closed ∙ SameFrame.flag_kept frame ∙ up) live
        (ap (λ x. timer_place t x.timers) closed
          ∙ ap (timer_place t) (SameFrame.timers_kept frame)
          ∙ armed)
      ∙ ap (λ x. x.open_sockets ++ ((x.next_handle, ref) ∷ [])) closed
      ∙ ap
          (λ ks.
            ks
            ++ (((now_out s ref e row u here live up logged_in found reason).next_handle, ref)
                ∷ []))
          (SameFrame.sockets_kept frame)
      ∙ ap (λ h. remove_handle u.socket s.open_sockets ++ ((h, ref) ∷ []))
          (next_handle-set_status ref bare logged_out)
