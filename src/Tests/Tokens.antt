-- ===== src/Tests/Tokens.antt =====
-- Tests of the token broker and of the keys of the session store.
use user_delegated_auth_serv.Base.{
  ℕ, String, ◌≡◌, refl, ◌↔◌, false, List, [], ◌∷◌, map, any, ok, err, value_error, none, some,
  strip, if◌then◌else◌,
}
use user_delegated_auth_serv.Json.{arr, strings}
use user_delegated_auth_serv.TokenBroker.Scopes.{dedupe, normalize_scopes, at_least_one}
use user_delegated_auth_serv.TokenBroker.Scopes.Laws.{is_blank, normalize_scopes-dedupe}
use user_delegated_auth_serv.TokenBroker.Models.{
  WorkflowTokenExchangeRequest, WorkflowTokenExchangeResponse, Auth0OnBehalfOfConfig,
}
use user_delegated_auth_serv.TokenBroker.Exchange.{exchange_for_workflow_token}
use user_delegated_auth_serv.TokenBroker.Exchange.Audience.{
  IsExchanged, exchange_for_workflow_token-IsExchanged,
}
use user_delegated_auth_serv.SessionState.Keys.Injective.{
  tenant_text, KeyKind, build_key, build_key-eq_iff,
}
use user_delegated_auth_serv.Tests.Data.{auth0, value_or}

abbrev scopes : List String
scopes = "read:vm" ∷ " write:vm" ∷ "read:vm " ∷ []

normalize_scopes_example : normalize_scopes false (arr (strings scopes)) ≡ (
    if any is_blank scopes
    then err (value_error "scopes must not contain blank values")
    else at_least_one false (dedupe (map strip scopes)))
normalize_scopes_example = normalize_scopes-dedupe false scopes

abbrev config : Auth0OnBehalfOfConfig
config = record {
  domain = "tenant.auth0.com";
  token_endpoint = "https://tenant.auth0.com/oauth/token";
  client_id = "client";
  client_secret = "secret";
  audience = "cloud-api";
}

abbrev exchange_request : WorkflowTokenExchangeRequest
exchange_request = record {
  user_id = "user-1";
  session_id = "session-1";
  workflow_id = "wf-1";
  approval_id = "approval-1";
  plan_hash = "sha256:sha";
  tenant_id = some "acme";
  auth_context_ref = "credential";
  requested_scopes = "write:vm" ∷ [];
  requested_audience = some "cloud-api";
  ttl_seconds = some 900;
}

abbrev exchanged : WorkflowTokenExchangeResponse
exchanged =
    value_or (record { access_token = ""; expires_at = 0; scopes = []; audience = none })
      (exchange_for_workflow_token auth0 100 config exchange_request)

exchanged_lem : exchange_for_workflow_token auth0 100 config exchange_request ≡ ok exchanged
unfolding exchange_for_workflow_token
    user_delegated_auth_serv.TokenBroker.Models.new_exchange_response strings
exchanged_lem = refl

exchange_for_workflow_token_example : IsExchanged auth0 100 config exchange_request exchanged
exchange_for_workflow_token_example =
    exchange_for_workflow_token-IsExchanged auth0 100 config exchange_request exchanged
      exchanged_lem

abbrev user : String
user = "user-1"

abbrev session : String
session = "session-1"

abbrev global_key : List ℕ
global_key = value_or [] (build_key "udas" none "user-1" "session-1" (KeyKind.workflow "wf:1"))

abbrev underscore_key : List ℕ
underscore_key =
    value_or [] (build_key "udas" (some "_") "user-1" "session-1" (KeyKind.workflow "wf:1"))

global_key_lem :
    build_key "udas" none "user-1" "session-1" (KeyKind.workflow "wf:1") ≡ ok global_key
unfolding build_key user_delegated_auth_serv.SessionState.Keys.build_workflow_key
global_key_lem = refl

underscore_key_lem :
    build_key "udas" (some "_") "user-1" "session-1" (KeyKind.workflow "wf:1") ≡ ok underscore_key
unfolding build_key user_delegated_auth_serv.SessionState.Keys.build_workflow_key
underscore_key_lem = refl

build_key_example : (global_key ≡ underscore_key) ↔ (
    (tenant_text none ≡ tenant_text (some "_"))
    × (user ≡ user)
    × (session ≡ session)
    × (KeyKind.workflow "wf:1" ≡ KeyKind.workflow "wf:1"))
build_key_example =
    build_key-eq_iff "udas" none (some "_") "user-1" "user-1" "session-1" "session-1"
      (KeyKind.workflow "wf:1") (KeyKind.workflow "wf:1") global_key underscore_key global_key_lem
      underscore_key_lem
