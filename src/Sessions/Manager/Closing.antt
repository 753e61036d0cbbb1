-- ===== src/Sessions/Manager/Closing.antt =====
-- The sockets that `shutdown` of manager.ts closes.
use whatsapp_auto_send.Prelude.{
  ℕ, zero, suc, true, Option, none, some, List, [], ◌∷◌, ◌≡◌, ◌≢◌, refl, sym, ap, ◌∙◌, subst, arith,
  get_elem?, All, Option-cases, inl, inr, ◌⊎◌, ◌==◌, nat_eq, if_cases, ℕ_discrete,
}
use whatsapp_auto_send.Prelude.Dict.{values}
use whatsapp_auto_send.Sessions.State.{
  Entry, State, modify_at, entry_at, remove_handle, end_socket, clear_timeout,
}
use whatsapp_auto_send.Sessions.Manager.Lifecycle.{shutdown, close_all}
use whatsapp_auto_send.Sessions.Manager.Shutdown.{close_one}

get_elem?-modify_at_other :
    (i j : ℕ) (f : Entry → Entry) (es : List Entry)
    → i ≢ j
    → get_elem? (modify_at i f es) j ≡ get_elem? es j
unfolding modify_at
get_elem?-modify_at_other i j f [] n = refl
get_elem?-modify_at_other zero zero f (e ∷ es) n = elim (n refl) [ ]
get_elem?-modify_at_other zero (suc j) f (e ∷ es) n = refl
get_elem?-modify_at_other (suc i) zero f (e ∷ es) n = refl
get_elem?-modify_at_other (suc i) (suc j) f (e ∷ es) n =
    get_elem?-modify_at_other i j f es (λ p. n (ap suc p))

-- The socket `k` is not open.
abbrev pub IsShut : ℕ → List (ℕ × ℕ) → Type 0
IsShut k ks = All (λ p. p.0 ≢ k) ks

unfoldable pub IsAmong : ℕ → List ℕ → Type 0
IsAmong ref [] = ⊥
IsAmong ref (r ∷ rs) = (r ≡ ref) ⊎ IsAmong ref rs

IsShut-remove_handle : (k : ℕ) (ks : List (ℕ × ℕ)) → IsShut k (remove_handle k ks)
unfolding remove_handle
IsShut-remove_handle k [] = tt
IsShut-remove_handle k ((j, ref) ∷ ks) =
    let rest = IsShut-remove_handle k ks in
    if_cases (IsShut k) (j == k) (remove_handle k ks) ((j, ref) ∷ remove_handle k ks) (λ _. rest)
      (λ t. (ground (arith, t), rest))

remove_handle-IsShut : (k h : ℕ) (ks : List (ℕ × ℕ)) → IsShut k ks → IsShut k (remove_handle h ks)
unfolding remove_handle
remove_handle-IsShut k h [] v = tt
remove_handle-IsShut k h ((j, ref) ∷ ks) (n, v) =
    let rest = remove_handle-IsShut k h ks v in
    if_cases (IsShut k) (j == h) (remove_handle h ks) ((j, ref) ∷ remove_handle h ks) (λ _. rest)
      (λ _. (n, rest))

end_socket-IsShut :
    (k : ℕ) (j t : Option ℕ) (s : State)
    → IsShut k s.open_sockets
    → IsShut k (end_socket j (clear_timeout t s)).open_sockets
end_socket-IsShut k none none s v = v
end_socket-IsShut k none (some t) s v = v
end_socket-IsShut k (some j) none s v = remove_handle-IsShut k j s.open_sockets v
end_socket-IsShut k (some j) (some t) s v = remove_handle-IsShut k j s.open_sockets v

IsShut-end_socket :
    (k : ℕ) (t : Option ℕ) (s : State)
    → IsShut k (end_socket (some k) (clear_timeout t s)).open_sockets
IsShut-end_socket k none s = IsShut-remove_handle k s.open_sockets
IsShut-end_socket k (some t) s = IsShut-remove_handle k s.open_sockets

heap-end_socket : (k t : Option ℕ) (s : State) → (end_socket k (clear_timeout t s)).heap ≡ s.heap
heap-end_socket none none s = refl
heap-end_socket none (some t) s = refl
heap-end_socket (some k) none s = refl
heap-end_socket (some k) (some t) s = refl

abbrev ended : Entry → Entry
ended x = record x { reconnect_timer = none; closing = true; socket = none; pending_creds = 0 }

module _ (ref : ℕ) (s : State) where
  close_one-IsShut : (k : ℕ) → IsShut k s.open_sockets → IsShut k (close_one ref s).open_sockets
  close_one-IsShut k v = elim (Option-cases (entry_at s ref)) [
    | inl h ↦ rw (close_one, h) v
    | inr (e, h) ↦ rw (close_one, h) (end_socket-IsShut k e.socket e.reconnect_timer s v)
  ]

  IsShut-close_one :
      (k : ℕ) (e : Entry)
      → entry_at s ref ≡ some e
      → e.socket ≡ some k
      → IsShut k (close_one ref s).open_sockets
  IsShut-close_one k e h held = rw (close_one, h, held) (IsShut-end_socket k e.reconnect_timer s)

  entry_at-close_one :
      (other : ℕ) → ref ≢ other → entry_at (close_one ref s) other ≡ entry_at s other
  entry_at-close_one other n = elim (Option-cases (entry_at s ref)) [
    | inl h ↦ rw (close_one, h)
    | inr (e, h) ↦
        rw (close_one, h, heap-end_socket e.socket e.reconnect_timer s)
          (get_elem?-modify_at_other ref other ended s.heap n)
  ]

close_all-IsShut :
    (k : ℕ) (refs : List ℕ) (s : State)
    → IsShut k s.open_sockets
    → IsShut k (close_all refs s).open_sockets
unfolding close_all
close_all-IsShut k [] s v = v
close_all-IsShut k (ref ∷ refs) s v =
    close_all-IsShut k refs (close_one ref s) (close_one-IsShut ref s k v)

IsShut-close_all :
    (k ref : ℕ) (e : Entry) (refs : List ℕ) (s : State)
    → IsAmong ref refs
    → entry_at s ref ≡ some e
    → e.socket ≡ some k
    → IsShut k (close_all refs s).open_sockets
unfolding close_all IsAmong
IsShut-close_all k ref e [] s m here held = elim m [ ]
IsShut-close_all k ref e (r ∷ refs) s m here held = elim (ℕ_discrete r ref) [
  | yes same ↦
      close_all-IsShut k refs (close_one r s)
        (IsShut-close_one r s k e (subst (λ x. entry_at s x ≡ some e) (sym same) here) held)
  | no differ ↦ elim m [
    | inl same ↦ elim (differ same) [ ]
    | inr rest ↦
        IsShut-close_all k ref e refs (close_one r s) rest
          (entry_at-close_one r s ref differ ∙ here) held
  ]
]

-- A shutdown closes the socket of every session that the manager has.
pub shutdown-IsShut :
    (s : State) (ref k : ℕ) (e : Entry)
    → IsAmong ref (values s.entries)
    → entry_at s ref ≡ some e
    → e.socket ≡ some k
    → IsShut k (shutdown s).open_sockets
unfolding shutdown
shutdown-IsShut s ref k e m here held =
    IsShut-close_all k ref e (values s.entries) (record s { shutting_down = true }) m here held
