-- ===== src/Auth/Access.antt =====
-- Who may do what, for the credentials that a configuration gives.
use Prim.Native.String.{len}
use whatsapp_auto_send.Prelude.{
  String, true, false, Option, none, some, List, [], ◌∷◌, ok, string_eq, contains, ◌≡◌, ◌≢◌, ◌↔◌,
  ◌⊎◌, inl, inr, refl, ap, arith, Option-cases, ◌∙◌, template, subst, sym,
}
use mathlib.Core.Option.{some-injective}
use whatsapp_auto_send.Prelude.Dict.{get}
use whatsapp_auto_send.Config.{Config}
use whatsapp_auto_send.Config.Laws.{IsSound}
use whatsapp_auto_send.Auth.{
  Capability, send, read, manage, Credential, Request, tokens_match, extract_bearer,
  required_capability, identify, credentials_from, authorize, path_of, check_credential, identified,
  public_paths, route_capabilities,
}

tokens_match_iff : (a b : String) → (tokens_match a b ≡ true) ↔ (a ≡ b)
unfolding tokens_match
tokens_match_iff a b = (λ h. ground arith, λ p. ground (arith, ap len p))

-- The two clients, by their tokens, and what each may do.
abbrev pub MayCall : Config → String → Capability → Type 0
MayCall config token send = token ≡ config.dispatcher_api_key
MayCall config token read =
    (token ≡ config.dispatcher_api_key) ⊎ (config.console_api_key ≡ some token)
MayCall config token manage = config.console_api_key ≡ some token

abbrev CheckPasses : Config → String → Capability → Type 0
CheckPasses config token cap =
    check_credential (identify token (credentials_from config)) (some cap) ≡ ok tt

module _ (config : Config) (token : String) where
  check_no_console :
      (cap : Capability)
      → config.console_api_key ≡ none
      → CheckPasses config token cap ↔ MayCall config token cap
  unfolding check_credential identify credentials_from
  check_no_console send e = ground (arith, e, tokens_match_iff token config.dispatcher_api_key)
  check_no_console read e = ground (arith, e, tokens_match_iff token config.dispatcher_api_key)
  check_no_console manage e = ground (arith, e, tokens_match_iff token config.dispatcher_api_key)

  check_console :
      (cap : Capability) (key : String)
      → config.console_api_key ≡ some key
      → key ≢ config.dispatcher_api_key
      → CheckPasses config token cap ↔ MayCall config token cap
  unfolding check_credential identify credentials_from
  check_console send key e n =
      ground
        (arith, e, n, tokens_match_iff token config.dispatcher_api_key, tokens_match_iff token key)
  check_console read key e n =
      ground
        (arith, e, n, tokens_match_iff token config.dispatcher_api_key, tokens_match_iff token key)
  check_console manage key e n =
      ground
        (arith, e, n, tokens_match_iff token config.dispatcher_api_key, tokens_match_iff token key)

  check-MayCall :
      (cap : Capability) → IsSound config → CheckPasses config token cap ↔ MayCall config token cap
  check-MayCall cap v = elim (Option-cases config.console_api_key) [
    | inl e ↦ check_no_console cap e
    | inr (key, e) ↦ check_console cap key e (λ p. v.keys_differ (e ∙ ap some p))
  ]

authorize-check :
    (credentials : List Credential) (req : Request)
    → contains public_paths (path_of req.url) ≡ false
    → authorize credentials req
      ≡ check_credential
          (identified (extract_bearer req.authorization) credentials)
          (required_capability req)
unfolding authorize
authorize-check credentials req hidden = rw hidden

check-bearer :
    (bearer : Option String) (config : Config) (cap : Capability)
    → IsSound config
    → (check_credential (identified bearer (credentials_from config)) (some cap) ≡ ok tt)
      ↔ ((token : String) × (bearer ≡ some token) × MayCall config token cap)
unfolding check_credential
check-bearer none config cap v = (λ h. cc, λ h. cc h.1)
check-bearer (some token) config cap v = (
  λ h. (token, refl, (check-MayCall config token cap v).0 h),
  λ h.
      (check-MayCall config token cap v).1
        (subst (λ t. MayCall config t cap) (some-injective h.0 token (sym h.1)) h.2),
)

module _ (config : Config) (v : IsSound config) (req : Request) where
  -- Under a sound configuration, a request whose path is not public and whose route needs a
  -- capability is let through exactly when it bears a token, and that token is the dispatcher's for
  -- send, either client's for read, and the console's for manage. So the console cannot send, and
  -- the dispatcher cannot manage sessions.
  pub authorize-MayCall :
      (cap : Capability)
      → contains public_paths (path_of req.url) ≡ false
      → required_capability req ≡ some cap
      → (authorize (credentials_from config) req ≡ ok tt) ↔ (
          (token : String) × (extract_bearer req.authorization ≡ some token)
          × MayCall config token cap)
  authorize-MayCall cap hidden needs =
      rw (authorize-check (credentials_from config) req hidden, needs)
        (check-bearer (extract_bearer req.authorization) config cap v)

  -- A request that matched a route which the table does not name, at a path that is not public, is
  -- let through only with the console's token.
  pub authorize-unlisted :
      (pattern' : String)
      → contains public_paths (path_of req.url) ≡ false
      → req.route ≡ some pattern'
      → get (template (req.method ∷ " " ∷ pattern' ∷ [])) route_capabilities ≡ none
      → authorize (credentials_from config) req ≡ ok tt
      → (token : String) × (extract_bearer req.authorization ≡ some token)
        × (config.console_api_key ≡ some token)
  unfolding required_capability
  authorize-unlisted pattern' hidden route missing h =
      (authorize-MayCall manage hidden (rw (route, required_capability) (rw missing))).0 h
