-- ===== src/TokenBroker/Exchange.antt =====
-- `Auth0OnBehalfOfClient` of packages/token_broker/token_broker/auth0.py.
pub mod Audience
use Prim.Native.String.{◌++◌}
use mathlib.Core.List.{◌++◌ as append}
use user_delegated_auth_serv.Base.{
  ℕ, ◌+◌, ◌-◌, ◌*◌, String, Bool, true, false, not, ◌&&◌, Option, none, some, List, [], ◌∷◌, map,
  Result, ok, err, ◌>>=◌, value_error, mem, keep, strip, is_empty, nat_eq, ◌==◌, opt_eq,
  if◌then◌else◌,
}
use user_delegated_auth_serv.Json.{
  ℤ, pos, negsuc, Json, null, bool, int, float, str, arr, obj, Items, nil, cons, Fields, end, field,
  get, truthy,
}
use user_delegated_auth_serv.Json.Dumps.{join}
use user_delegated_auth_serv.TokenBroker.Scopes.{dedupe, parse_scope_string}
use user_delegated_auth_serv.TokenBroker.Models.{
  WorkflowTokenExchangeRequest, WorkflowTokenExchangeResponse, Auth0OnBehalfOfConfig,
  new_exchange_response,
}

-- A form that is posted, and where.
pub record FormPost : Type 0 where
  pub url : String
  pub form : List (String × String)

-- What the client takes from `httpx` and from the JWT's base64 and JSON.
pub record Auth0 : Type 0 where
  -- the JSON of the answer after `raise_for_status`
  pub post : FormPost → Result Fields
  -- `_claims_from_unverified_jwt`
  pub claims_of : String → Option Fields

abbrev string_or_error : String → Option Json → Result String
string_or_error key (some (str s)) =
    if is_empty s then err (value_error ("Auth0 token response missing required " ++ key)) else ok s
string_or_error key _ = err (value_error ("Auth0 token response missing required " ++ key))

unfoldable pub required_string : Fields → String → Result String
unfolding get
required_string payload key = string_or_error key (get key payload)

-- A text with something in it, as its words.
abbrev scope_words : Option Json → List String
scope_words (some (str s)) = if is_empty (strip s) then [] else parse_scope_string s
scope_words _ = []

-- The texts of a JSON list.
texts : Items → List String
texts nil = []
texts (cons (str s) vs) = s ∷ texts vs
texts (cons v vs) = texts vs

abbrev permission_texts : Option Json → List String
permission_texts (some (arr vs)) = texts vs
permission_texts _ = []

abbrev not_blank : String → Bool
not_blank s = not (is_empty (strip s))

abbrev claim_scopes : Option Fields → List String
claim_scopes none = []
claim_scopes (some claims) = dedupe (
    map strip (
      keep not_blank
        (append (scope_words (get "scope" claims)) (permission_texts (get "permissions" claims)))))

unfoldable pub audience_candidates : Option Json → List String
unfolding texts strip
audience_candidates (some (str s)) = if not_blank s then strip s ∷ [] else []
audience_candidates (some (arr vs)) = map strip (keep not_blank (texts vs))
audience_candidates _ = []

-- `payload.get("audience") or payload.get("aud")`
abbrev audience_field : Fields → Option Json
audience_field payload = elim (get "audience" payload) [
  | some v ↦ if truthy v then some v else get "aud" payload
  | none ↦ get "aud" payload
]

abbrev claim_audiences : Option Fields → List String
claim_audiences none = []
claim_audiences (some claims) = audience_candidates (get "aud" claims)

abbrev only : List String → Option String
only (x ∷ []) = some x
only _ = none

abbrev pick_audience : List String → String → Option String
pick_audience deduped expected_audience =
    if mem expected_audience deduped then some expected_audience else only deduped

-- `response_payload.get("expires_in")`, if it is an `int`; `True` and `False` are.
abbrev int_or_none : Option Json → Option ℤ
int_or_none (some (int n)) = some n
int_or_none (some (bool true)) = some (pos 1)
int_or_none (some (bool false)) = some (pos 0)
int_or_none _ = none

-- `now + timedelta(seconds=expires_in or 3600)`, in microseconds.
unfoldable pub expires_at : ℕ → Option ℤ → ℕ
expires_at now none = now + 3600 * 1000000
expires_at now (some (pos n)) = if nat_eq n 0 then now + 3600 * 1000000 else now + n * 1000000
expires_at now (some (negsuc n)) = now - (n + 1) * 1000000

abbrev audience_or : Option String → String → String
audience_or none default = default
audience_or (some s) default = if is_empty s then default else s

abbrev scope_form : List String → List (String × String)
scope_form [] = []
scope_form (s ∷ ss) = ("scope", join " " (s ∷ ss)) ∷ []

unfoldable pub exchange_form :
    Auth0OnBehalfOfConfig → WorkflowTokenExchangeRequest → List (String × String)
unfolding join
exchange_form config request =
    ("client_id", config.client_id)
    ∷ ("client_secret", config.client_secret)
    ∷ ("subject_token", request.auth_context_ref)
    ∷ ("grant_type", "urn:ietf:params:oauth:grant-type:token-exchange")
    ∷ ("subject_token_type", "urn:ietf:params:oauth:token-type:access_token")
    ∷ ("requested_token_type", "urn:ietf:params:oauth:token-type:access_token")
    ∷ ("audience", audience_or request.requested_audience config.audience)
    ∷ scope_form request.requested_scopes

-- `audience != expected_audience` raises.
abbrev token_for :
    ℕ
    → Fields
    → String
    → List String
    → String
    → Option String
    → Result WorkflowTokenExchangeResponse
token_for now payload access_token scopes expected audience =
    if opt_eq audience (some expected)
    then new_exchange_response (record {
      access_token = access_token;
      scopes = scopes;
      audience = audience;
      expires_at = expires_at now (int_or_none (get "expires_in" payload));
    })
    else err (value_error "Auth0 token response audience does not match requested audience")

module _ (auth0 : Auth0) where
  unfoldable pub scopes_from_unverified_jwt : String → List String
  unfolding texts dedupe strip parse_scope_string get
  scopes_from_unverified_jwt access_token = claim_scopes (auth0.claims_of access_token)

  abbrev or_requested : List String → List String → List String
  or_requested [] requested_scopes = requested_scopes
  or_requested (s ∷ ss) requested_scopes = s ∷ ss

  unfoldable pub scopes_from_response : Fields → String → List String → List String
  unfolding scopes_from_unverified_jwt
  scopes_from_response payload access_token requested_scopes = elim (get "scope" payload) [
    | some (str s) ↦
        if not_blank s
        then parse_scope_string s
        else or_requested (scopes_from_unverified_jwt access_token) requested_scopes
    | _ ↦ or_requested (scopes_from_unverified_jwt access_token) requested_scopes
  ]

  unfoldable pub audience_from_response : Fields → String → String → Option String
  unfolding audience_candidates truthy dedupe
  audience_from_response payload access_token expected_audience =
      pick_audience
        (dedupe (
          keep (λ candidate. not (is_empty candidate))
            (append (audience_candidates (audience_field payload))
              (claim_audiences (auth0.claims_of access_token)))))
        expected_audience

  unfoldable pub exchange_for_workflow_token :
      ℕ
      → Auth0OnBehalfOfConfig
      → WorkflowTokenExchangeRequest
      → Result WorkflowTokenExchangeResponse
  unfolding exchange_form required_string scopes_from_response audience_from_response expires_at
  exchange_for_workflow_token now config request = do
    payload ←
        auth0.post (record { url = config.token_endpoint; form = exchange_form config request })
    access_token ← required_string payload "access_token"
    let expected = audience_or request.requested_audience config.audience
    token_for now payload access_token (scopes_from_response payload access_token []) expected
        (audience_from_response payload access_token expected)
