-- ===== src/TokenBroker/Models.antt =====
-- The workflow token models of packages/token_broker/token_broker/models.py and the configuration of
-- the on-behalf-of client, with their validators.
use user_delegated_auth_serv.Base.{
  ℕ, String, true, not, ◌||◌, Option, none, some, List, Result, ok, ◌>>=◌, ◌>>◌, guard, value_error,
  is_empty, rstrip_slash, strip, sorted, ltb, without_prefix,
}
use user_delegated_auth_serv.Json.{arr, strings}
use user_delegated_auth_serv.WorkflowCore.Validation.{min_length_1}
use user_delegated_auth_serv.TokenBroker.Scopes.{normalize_scopes, remove_prefix, has_prefix}

pub record WorkflowTokenExchangeRequest : Type 0 where
  pub user_id : String
  pub session_id : String
  pub workflow_id : String
  pub approval_id : String
  pub plan_hash : String
  pub tenant_id : Option String
  pub auth_context_ref : String
  pub requested_scopes : List String
  pub requested_audience : Option String
  pub ttl_seconds : Option ℕ

pub record WorkflowTokenExchangeResponse : Type 0 where
  pub access_token : String
  pub expires_at : ℕ
  pub scopes : List String
  pub audience : Option String

pub record Auth0OnBehalfOfConfig : Type 0 where
  pub domain : String
  pub token_endpoint : String
  pub client_id : String
  pub client_secret : String
  pub audience : String

-- `sorted(_normalize_scopes(value, allow_empty=True))`
unfoldable pub sorted_scopes : List String → Result (List String)
unfolding normalize_scopes sorted
sorted_scopes value = do scopes ← normalize_scopes true (arr (strings value)); ok (sorted scopes)

abbrev positive : Option ℕ → Result (Unit {0})
positive none = ok tt
positive (some n) = guard (ltb 0 n) (value_error "input should be greater than 0")

unfoldable pub new_exchange_request :
    WorkflowTokenExchangeRequest → Result WorkflowTokenExchangeRequest
unfolding min_length_1 sorted_scopes
new_exchange_request r = do
  min_length_1 r.user_id
  min_length_1 r.session_id
  min_length_1 r.workflow_id
  min_length_1 r.approval_id
  min_length_1 r.plan_hash
  min_length_1 r.auth_context_ref
  scopes ← sorted_scopes r.requested_scopes
  positive r.ttl_seconds
  ok (record r { requested_scopes = scopes })

unfoldable pub new_exchange_response :
    WorkflowTokenExchangeResponse → Result WorkflowTokenExchangeResponse
unfolding min_length_1 sorted_scopes
new_exchange_response r = do
  min_length_1 r.access_token
  scopes ← sorted_scopes r.scopes
  ok (record r { scopes = scopes })

unfoldable pub normalize_domain : String → Result String
unfolding strip remove_prefix rstrip_slash
normalize_domain value = do
  let domain = rstrip_slash (remove_prefix "http://" (remove_prefix "https://" (strip value)))
  guard (not (is_empty domain)) (value_error "domain must not be blank")
  ok domain

unfoldable pub validate_endpoint : String → Result String
unfolding strip without_prefix
validate_endpoint value = do
  let endpoint = strip value
  guard (has_prefix "https://" endpoint || has_prefix "http://" endpoint)
      (value_error "endpoint must be an HTTP(S) URL")
  ok endpoint

unfoldable pub new_obo_config : Auth0OnBehalfOfConfig → Result Auth0OnBehalfOfConfig
unfolding min_length_1 normalize_domain validate_endpoint
new_obo_config c = do
  min_length_1 c.domain
  min_length_1 c.token_endpoint
  min_length_1 c.client_id
  min_length_1 c.client_secret
  min_length_1 c.audience
  domain ← normalize_domain c.domain
  endpoint ← validate_endpoint c.token_endpoint
  ok (record c { domain = domain; token_endpoint = endpoint })
