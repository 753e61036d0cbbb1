-- ===== src/Sessions/Manager/Heap.antt =====
-- What each handler of manager.ts writes into the entry it acts on: one function of that entry.
use whatsapp_auto_send.Prelude.{
  ℕ, zero, suc, ◌+◌, Option, none, some, List, [], ◌∷◌, ◌≡◌, refl, subst, String, arith, get_elem?,
  All, Option-cases, inl, inr,
}
use mathlib.Core.Option.{some-injective}
use whatsapp_auto_send.Database.{Creds, SessionStatus, session_status_eq}
use whatsapp_auto_send.Sessions.State.{Entry, State, modify_at, entry_at, clear_timeout, end_socket}
use whatsapp_auto_send.Sessions.Manager.{set_status, emit_status, schedule_reconnect, make_socket}
use whatsapp_auto_send.Sessions.Manager.Connection.{emit_qr}

-- Outside the heap nothing is written.
pub modify_at-none :
    (i : ℕ) (f : Entry → Entry) (es : List Entry) → get_elem? es i ≡ none → modify_at i f es ≡ es
unfolding modify_at
modify_at-none i f [] h = refl
modify_at-none zero f (e ∷ es) h = cc
modify_at-none (suc i) f (e ∷ es) h = rw (modify_at-none i f es h)

pub modify_at-same :
    (i : ℕ) (f : Entry → Entry) (es : List Entry) (e : Entry)
    → get_elem? es i ≡ some e
    → f e ≡ e
    → modify_at i f es ≡ es
unfolding modify_at
modify_at-same i f [] e h k = refl
modify_at-same zero f (x ∷ es) e h k = ground (arith, h, k)
modify_at-same (suc i) f (x ∷ es) e h k = rw (modify_at-same i f es e h k)

pub modify_at-fuse :
    (i : ℕ) (f g : Entry → Entry) (es : List Entry)
    → modify_at i f (modify_at i g es) ≡ modify_at i (λ x. f (g x)) es
unfolding modify_at
modify_at-fuse i f g [] = refl
modify_at-fuse zero f g (x ∷ es) = refl
modify_at-fuse (suc i) f g (x ∷ es) = rw (modify_at-fuse i f g es)

pub get_elem?-modify_at :
    (i : ℕ) (f : Entry → Entry) (es : List Entry) (e : Entry)
    → get_elem? es i ≡ some e
    → get_elem? (modify_at i f es) i ≡ some (f e)
unfolding modify_at
get_elem?-modify_at i f [] e h = cc
get_elem?-modify_at zero f (x ∷ es) e h = ground (arith, h)
get_elem?-modify_at (suc i) f (x ∷ es) e h = get_elem?-modify_at i f es e h

module _ {ℓ} (P : Entry → Type ℓ) where
  pub All-modify_at :
      (i : ℕ) (f : Entry → Entry) (es : List Entry)
      → ((e : Entry) → get_elem? es i ≡ some e → P e → P (f e))
      → All P es
      → All P (modify_at i f es)
  unfolding modify_at
  All-modify_at i f [] keep h = h
  All-modify_at zero f (e ∷ es) keep (p, h) = (keep e refl p, h)
  All-modify_at (suc i) f (e ∷ es) keep (p, h) = (p, All-modify_at i f es keep h)

  pub All-get_elem? :
      (i : ℕ) (es : List Entry) (e : Entry) → get_elem? es i ≡ some e → All P es → P e
  All-get_elem? i [] e k h = cc
  All-get_elem? zero (x ∷ es) e k (p, h) = subst P (some-injective x e k) p
  All-get_elem? (suc i) (x ∷ es) e k (p, h) = All-get_elem? i es e k h

module _ (ref : ℕ) (s : State) where
  pub heap-emit_status : (emit_status ref s).heap ≡ s.heap
  unfolding emit_status
  heap-emit_status = ground arith

  pub heap-clear_timeout : (t : Option ℕ) → (clear_timeout t s).heap ≡ s.heap
  heap-clear_timeout none = refl
  heap-clear_timeout (some t) = refl

  pub heap-end_socket : (k : Option ℕ) → (end_socket k s).heap ≡ s.heap
  heap-end_socket none = refl
  heap-end_socket (some k) = refl

  pub heap-set_status :
      (status : SessionStatus)
      → (set_status ref status s).heap ≡ modify_at ref (λ x. record x { status = status }) s.heap
  unfolding set_status
  heap-set_status status = elim (Option-cases (entry_at s ref)) [
    | inl e ↦ ground (arith, e, modify_at-none ref (λ x. record x { status = status }) s.heap)
    | inr (x, e) ↦
        ground (arith, e, modify_at-same ref (λ y. record y { status = status }) s.heap x)
  ]

  pub heap-schedule_reconnect :
      (delay_ms : ℕ)
      → (schedule_reconnect ref delay_ms s).heap
        ≡ modify_at ref
            (λ x. record x {
              reconnect_due_at = some (s.now + delay_ms);
              reconnect_timer = some s.next_handle;
            })
            s.heap
  unfolding schedule_reconnect
  heap-schedule_reconnect delay_ms = elim (Option-cases (entry_at s ref)) [
    | inl e ↦ ground (
      arith,
      e,
      modify_at-none ref
          (λ x. record x {
            reconnect_due_at = some (s.now + delay_ms);
            reconnect_timer = some s.next_handle;
          })
          s.heap,
    )
    | inr (x, e) ↦ ground (arith, e, heap-clear_timeout x.reconnect_timer)
  ]

  pub heap-emit_qr : (qr : String) → (emit_qr ref qr s).heap ≡ s.heap
  unfolding emit_qr
  heap-emit_qr qr = ground arith

  pub heap-make_socket :
      (fresh : Creds)
      → (make_socket ref fresh s).heap
        ≡ modify_at ref (λ x. record x { socket = some s.next_handle }) s.heap
  unfolding make_socket
  heap-make_socket fresh = elim (Option-cases (entry_at s ref)) [
    | inl e ↦
        ground (arith, e, modify_at-none ref (λ x. record x { socket = some s.next_handle }) s.heap)
    | inr (x, e) ↦ ground (arith, e)
  ]
