-- ===== src/Auth.antt =====
-- baileys/src/auth.ts: which credential may call which route.
pub mod Access
mod Tests
use Prim.Native.String.{len}
use whatsapp_auto_send.Prelude.{
  ℕ, String, Bool, true, false, Option, none, some, List, [], ◌∷◌, ◌&&◌, map, Result, ok, err, ◌==◌,
  nat_eq, string_eq, Eq, contains, if◌then◌else◌, codes, lower, split_on, join, trim, utf16_length,
  ltb, template, text_runs,
}
use whatsapp_auto_send.Prelude.Dict.{Dict, get}
use whatsapp_auto_send.Errors.{ApiError, unauthorized_error, forbidden_error}
use whatsapp_auto_send.Config.{Config}

pub data Capability : Type 0 where
  send read manage : Capability

pub Capability-discrete : Discrete Capability
Capability-discrete = hlevel

instance abbrev pub capability_eq : Eq Capability
capability_eq = record { dec = Capability-discrete }

pub record Credential : Type 0 where
  pub name : String
  pub key : String
  pub capabilities : List Capability

-- What the hook reads of a request. `route` is the pattern that Fastify matched, if any did.
pub record Request : Type 0 where
  pub method : String
  pub url : String
  pub authorization : Option String
  pub route : Option String

abbrev public_paths : List String
public_paths = "/health" ∷ []

abbrev pub route_capabilities : Dict String Capability
route_capabilities =
    ("POST /sessions/:id/send", send)
    ∷ ("GET /sessions", read)
    ∷ ("GET /sessions/:id", read)
    ∷ ("GET /metrics", read)
    ∷ ("POST /sessions", manage)
    ∷ ("POST /sessions/:id/connect", manage)
    ∷ ("POST /sessions/:id/pair", manage)
    ∷ ("GET /sessions/:id/qr", manage)
    ∷ ("GET /sessions/:id/qr/stream", manage)
    ∷ ("POST /sessions/:id/restart", manage)
    ∷ ("POST /sessions/:id/reset", manage)
    ∷ ("POST /sessions/:id/logout", manage)
    ∷ ("DELETE /sessions/:id", manage)
    ∷ []

-- `len` counts the bytes of the UTF-8, as the buffers' `length` does.
unfoldable pub tokens_match : String → String → Bool
tokens_match a b = if len a == len b then a == b else false

abbrev non_empty : String → Option String
non_empty token = if ltb 0 (utf16_length token) then some token else none

same_codes : List ℕ → List ℕ → Bool
same_codes [] [] = true
same_codes (a ∷ as') (b ∷ bs) = a == b && same_codes as' bs
same_codes _ _ = false

-- The scheme is compared without regard to case.
bearer_of : List String → Option String
unfolding same_codes
bearer_of [] = none
bearer_of (scheme ∷ rest) =
    if same_codes (map lower (codes scheme)) (codes "bearer")
    then non_empty (trim (join " " rest))
    else none

unfoldable pub extract_bearer : Option String → Option String
unfolding bearer_of
extract_bearer none = none
extract_bearer (some header) =
    if ltb 0 (utf16_length header) then bearer_of (split_on 32 header) else none

abbrev or_manage : Option Capability → Capability
or_manage none = manage
or_manage (some c) = c

-- A route that is not in the table demands `manage`; where no route matched, nothing is demanded.
unfoldable pub required_capability : Request → Option Capability
required_capability req = elim req.route [
  | none ↦ none
  | some pattern' ↦
      some (or_manage (get (template (req.method ∷ " " ∷ pattern' ∷ [])) route_capabilities))
]

-- The loop goes through every credential, and the last that matches stays.
identify_loop : String → List Credential → Option Credential → Option Credential
identify_loop token [] matched = matched
identify_loop token (c ∷ cs) matched =
    identify_loop token cs (if tokens_match token c.key then some c else matched)

unfoldable pub identify : String → List Credential → Option Credential
unfolding identify_loop
identify token credentials = identify_loop token credentials none

abbrev dispatcher_credential : String → Credential
dispatcher_credential key = record {
  name = "dispatcher";
  key = key;
  capabilities = send ∷ read ∷ [];
}

abbrev console_credential : String → Credential
console_credential key = record { name = "console"; key = key; capabilities = read ∷ manage ∷ [] }

unfoldable pub credentials_from : Config → List Credential
credentials_from config = elim config.console_api_key [
  | none ↦ dispatcher_credential config.dispatcher_api_key ∷ []
  | some key ↦ dispatcher_credential config.dispatcher_api_key ∷ console_credential key ∷ []
]

unfoldable pub capability_text : Capability → String
capability_text send = "send"
capability_text read = "read"
capability_text manage = "manage"

-- `url.split('?')[0] ?? url`
unfoldable pub path_of : String → String
path_of url = elim (split_on 63 url) [ [] ↦ url | p ∷ ps ↦ p ]

unfoldable pub check_capability : Credential → Option Capability → Result ApiError (Unit {0})
check_capability c none = ok tt
check_capability c (some needed) =
    if contains c.capabilities needed
    then ok tt
    else err (
        forbidden_error (
          template (
            "the "
            ∷ c.name
            ∷ " credential has no \""
            ∷ capability_text needed
            ∷ "\" capability"
            ∷ [])))

unfoldable pub check_credential : Option Credential → Option Capability → Result ApiError (Unit {0})
unfolding check_capability
check_credential none needed = err unauthorized_error
check_credential (some c) needed = check_capability c needed

abbrev pub identified : Option String → List Credential → Option Credential
identified none credentials = none
identified (some token) credentials = identify token credentials

-- The `onRequest` hook: it throws, or lets the request through.
unfoldable pub authorize : List Credential → Request → Result ApiError (Unit {0})
authorize credentials req =
    if contains public_paths (path_of req.url)
    then ok tt
    else check_credential (identified (extract_bearer req.authorization) credentials)
        (required_capability req)

-- A test that says `unfolding auth_runs` computes with the functions of this file.
unfoldable pub auth_runs : Unit {0}
unfolding authorize check_credential identify extract_bearer required_capability credentials_from
    path_of tokens_match capability_text check_capability Capability-discrete get text_runs
auth_runs = tt
