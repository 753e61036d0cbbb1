-- ===== src/Messages/Send/Frame.antt =====
-- baileys/src/messages/send.ts: what the bookkeeping after a send leaves of the messages and of the
-- clock.
use whatsapp_auto_send.Prelude.{
  ℕ, String, Bool, true, false, Option, none, some, ◌≡◌, refl, arith, ◌∙◌,
}
use whatsapp_auto_send.Errors.{ErrorCode}
use whatsapp_auto_send.Database.{SessionStatus, session_status_eq}
use whatsapp_auto_send.Metrics.{Labels}
use whatsapp_auto_send.Sessions.Repository.{set_session_status}
use whatsapp_auto_send.Sessions.State.{State}
use whatsapp_auto_send.Sessions.Manager.{set_status, emit_status, record_send_outcome}
use whatsapp_auto_send.Messages.Send.{count}

-- Both the messages and the clock are the same.
pub record Quiet (s s' : State) : Type 0 where
  pub messages_kept : s'.db.messages ≡ s.db.messages
  pub clock_kept : s'.now ≡ s.now

set_status-Quiet :
    (ref : ℕ) (status : SessionStatus) (s : State) → Quiet s (set_status ref status s)
unfolding set_status emit_status set_session_status
set_status-Quiet ref status s = ground arith

pub count-Quiet :
    (metered : Bool) (name : String) (labels : Labels) (s : State)
    → Quiet s (count metered name labels s)
count-Quiet true name labels s = record { messages_kept = refl; clock_kept = refl }
count-Quiet false name labels s = record { messages_kept = refl; clock_kept = refl }

then_Quiet : (s t v : State) → Quiet s t → Quiet t v → Quiet s v
then_Quiet s t v a b = record {
  messages_kept = b.messages_kept ∙ a.messages_kept;
  clock_kept = b.clock_kept ∙ a.clock_kept;
}

pub record_send_outcome-Quiet :
    (id : String) (o : Option ErrorCode) (s : State) → Quiet s (record_send_outcome id o s)
unfolding record_send_outcome set_status emit_status set_session_status
record_send_outcome-Quiet id none s = ground arith
record_send_outcome-Quiet id (some code) s = ground arith

pub outcome-Quiet :
    (id : String) (o : Option ErrorCode) (metered : Bool) (name : String) (labels : Labels)
    (s : State)
    → Quiet s (count metered name labels (record_send_outcome id o s))
outcome-Quiet id o metered name labels s =
    then_Quiet s (record_send_outcome id o s)
      (count metered name labels (record_send_outcome id o s)) (record_send_outcome-Quiet id o s)
      (count-Quiet metered name labels (record_send_outcome id o s))

pub outcome-Quiet_twice :
    (id : String) (o : Option ErrorCode) (metered : Bool) (name name' : String)
    (labels labels' : Labels) (s : State)
    → Quiet s (count metered name' labels' (count metered name labels (record_send_outcome id o s)))
outcome-Quiet_twice id o metered name name' labels labels' s =
    let once = count metered name labels (record_send_outcome id o s) in
    then_Quiet s once (count metered name' labels' once) (outcome-Quiet id o metered name labels s)
      (count-Quiet metered name' labels' once)
