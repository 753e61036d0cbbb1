-- ===== src/Sessions/Manager/Outcomes.antt =====
-- When a session is called unhealthy.
use whatsapp_auto_send.Prelude.{
  ℕ, ◌+◌, String, true, Option, none, some, List, [], ◌∷◌, ◌≡◌, refl, arith, Bool-cases, inl, inr,
  ◌==◌, ◌&&◌, if◌then◌else◌, leb, ◌∙◌,
}
use whatsapp_auto_send.Errors.{ErrorCode}
use whatsapp_auto_send.Database.{
  SessionStatus, connected, unhealthy, session_status_eq, SessionStatus-discrete,
}
use whatsapp_auto_send.Sessions.State.{Entry, State, modify, entry_of}
use whatsapp_auto_send.Sessions.Manager.{
  record_send_outcome, set_status, is_session_fault, unhealthy_after_failures,
}
use whatsapp_auto_send.Sessions.Manager.Heap.{heap-set_status, modify_at-fuse}
use whatsapp_auto_send.Sessions.Manager.Frame.{entry_of-modified, set_status-SameFrame}

-- The entry after a failed send.
abbrev after_failure : ErrorCode → ℕ → Entry → Entry
after_failure code now e = record e {
  last_failed_send_at = some now;
  last_error_code = some code;
  consecutive_failures =
      if is_session_fault code then e.consecutive_failures + 1 else e.consecutive_failures;
  status =
      if is_session_fault code
        && (leb unhealthy_after_failures (e.consecutive_failures + 1) && e.status == connected)
      then unhealthy
      else e.status;
}

-- The entry after a send that went through.
abbrev after_success : ℕ → Entry → Entry
after_success now e = record e {
  last_successful_send_at = some now;
  consecutive_failures = 0;
  last_error_code = none;
  status = if e.status == unhealthy then connected else e.status;
}

-- A status that is set after a write is one more write of the same entry.
set_after :
    (s : State) (id : String) (ref : ℕ) (e : Entry) (f : Entry → Entry) (status : SessionStatus)
    → entry_of s id ≡ some (ref, e)
    → entry_of (set_status ref status (modify ref f s)) id
      ≡ some (ref, record (f e) { status = status })
set_after s id ref e f status here =
    entry_of-modified s (set_status ref status (modify ref f s)) id ref e
      (λ x. record (f x) { status = status })
      (set_status-SameFrame ref (modify ref f s) status).entries_kept
      (heap-set_status ref (modify ref f s) status
        ∙ modify_at-fuse ref (λ x. record x { status = status }) f s.heap)
      here

write_after :
    (s : State) (id : String) (ref : ℕ) (e : Entry) (f : Entry → Entry)
    → entry_of s id ≡ some (ref, e)
    → entry_of (modify ref f s) id ≡ some (ref, f e)
write_after s id ref e f here = entry_of-modified s (modify ref f s) id ref e f refl refl here

module _ (s : State) (id : String) (ref : ℕ) (e : Entry)
    (here : entry_of s id ≡ some (ref, e)) where
  pub failure-entry :
      (code : ErrorCode)
      → entry_of (record_send_outcome id (some code) s) id ≡ some (ref, after_failure code s.now e)
  unfolding record_send_outcome
  failure-entry code =
      elim (Bool-cases (
        is_session_fault code
        && (leb unhealthy_after_failures (e.consecutive_failures + 1) && e.status == connected))) [
          | inl b ↦ rw (here, record_send_outcome, b, set_after s id ref e _ unhealthy here)
          | inr b ↦ rw (here, record_send_outcome, b, write_after s id ref e _ here)
        ]

  pub success-entry :
      entry_of (record_send_outcome id none s) id ≡ some (ref, after_success s.now e)
  unfolding record_send_outcome
  success-entry = elim (Bool-cases (e.status == unhealthy)) [
    | inl b ↦ rw (here, record_send_outcome, b, set_after s id ref e _ connected here)
    | inr b ↦ rw (here, record_send_outcome, b, write_after s id ref e _ here)
  ]

-- The session faults since the last message that went through, after `n` of them.
unfoldable pub faults_in_a_row : ℕ → List (Option ErrorCode) → ℕ
faults_in_a_row n [] = n
faults_in_a_row n (none ∷ os) = faults_in_a_row 0 os
faults_in_a_row n (some code ∷ os) = faults_in_a_row (if is_session_fault code then n + 1 else n) os

abbrev pub health : ℕ → SessionStatus
health n = if leb unhealthy_after_failures n then unhealthy else connected

-- The session has an entry whose counter is `n` and whose status is what `n` faults make of it.
pub record Tracked (s : State) (id : String) (n : ℕ) : Type 0 where
  pub ref : ℕ
  pub entry : Entry
  pub found : entry_of s id ≡ some (ref, entry)
  pub counted : entry.consecutive_failures ≡ n
  pub judged : entry.status ≡ health n

unfoldable pub report_all : String → List (Option ErrorCode) → State → State
report_all id [] s = s
report_all id (o ∷ os) s = report_all id os (record_send_outcome id o s)

after_success-health :
    (st : SessionStatus) (n : ℕ)
    → st ≡ health n
    → (if st == unhealthy then connected else st) ≡ connected
unfolding SessionStatus-discrete
after_success-health st n h = elim (Bool-cases (leb unhealthy_after_failures n)) [
  | inl b ↦ rw (h, b)
  | inr b ↦ rw (h, b)
]

stays_high :
    (n : ℕ) → leb unhealthy_after_failures n ≡ true → leb unhealthy_after_failures (n + 1) ≡ true
stays_high n b = ground (arith, b)

after_fault-health :
    (st : SessionStatus) (n m : ℕ)
    → st ≡ health n
    → m ≡ n
    → (if leb unhealthy_after_failures (m + 1) && st == connected then unhealthy else st)
      ≡ health (n + 1)
unfolding SessionStatus-discrete
after_fault-health st n m h k = elim (Bool-cases (leb unhealthy_after_failures n)) [
  | inl b ↦ rw (h, k, b, stays_high n b)
  | inr b ↦ elim (Bool-cases (leb unhealthy_after_failures (n + 1))) [
    | inl d ↦ rw (h, k, b, d)
    | inr d ↦ rw (h, k, b, d)
  ]
]

success-Tracked :
    (s : State) (id : String) (n : ℕ)
    → Tracked s id n
    → Tracked (record_send_outcome id none s) id 0
success-Tracked s id n t = record {
  ref = t.ref;
  entry = after_success s.now t.entry;
  found = success-entry s id t.ref t.entry t.found;
  counted = refl;
  judged = after_success-health t.entry.status n t.judged;
}

failure-Tracked :
    (s : State) (id : String) (n : ℕ) (code : ErrorCode)
    → Tracked s id n
    → Tracked (record_send_outcome id (some code) s) id (if is_session_fault code then n + 1 else n)
failure-Tracked s id n code t = record {
  ref = t.ref;
  entry = after_failure code s.now t.entry;
  found = failure-entry s id t.ref t.entry t.found code;
  counted = ground (arith, t.counted);
  judged = elim (Bool-cases (is_session_fault code)) [
    | inl b ↦
        rw b (after_fault-health t.entry.status n t.entry.consecutive_failures t.judged t.counted)
    | inr b ↦ rw b t.judged
  ];
}

-- For a session that is connected or unhealthy as its counter of faults says, any sequence of reports
-- leaves it unhealthy exactly when five or more sends failed by the session's own fault since the last
-- message that went through, and connected otherwise. Other failures neither count nor reset.
pub report_all-Tracked :
    (s : State) (id : String) (n : ℕ) (os : List (Option ErrorCode))
    → Tracked s id n
    → Tracked (report_all id os s) id (faults_in_a_row n os)
unfolding faults_in_a_row report_all
report_all-Tracked s id n [] t = t
report_all-Tracked s id n (none ∷ os) t =
    report_all-Tracked (record_send_outcome id none s) id 0 os (success-Tracked s id n t)
report_all-Tracked s id n (some code ∷ os) t =
    report_all-Tracked (record_send_outcome id (some code) s) id
      (if is_session_fault code then n + 1 else n) os (failure-Tracked s id n code t)
