-- ===== src/AgentService/Obo.antt =====
-- services/agent_service/agent_service/app.py: the configuration and the request of the on-behalf-of
-- exchange for a workflow.
use Prim.Native.String.{◌++◌}
use mathlib.Core.List.{◌++◌ as append}
use user_delegated_auth_serv.Base.{
  Char, code, String, Option, none, some, List, [], ◌∷◌, Result, ok, err, ◌>>=◌, http_exception,
  nat_eq, is_empty, strip, rstrip_slash, sorted_set, if◌then◌else◌,
}
use user_delegated_auth_serv.WorkflowCore.Models.{ToolIntent, WorkflowStep, ApprovedWorkflow}
use user_delegated_auth_serv.WorkflowCore.Catalog.{get_tool_authorization}
use user_delegated_auth_serv.TokenBroker.Scopes.{remove_prefix}
use user_delegated_auth_serv.TokenBroker.Models.{
  WorkflowTokenExchangeRequest, Auth0OnBehalfOfConfig, new_exchange_request, new_obo_config,
}
use user_delegated_auth_serv.EgressGateway.Handler.{Env}
use user_delegated_auth_serv.AgentService.Models.{WorkflowRecord}
use user_delegated_auth_serv.AgentService.Store.{present}

-- The character of the second text that stands where `c` does in the first.
translate : Char → String → String → Char
translate c String.[] t = c
translate c (String.◌∷◌ a s) String.[] = c
translate c (String.◌∷◌ a s) (String.◌∷◌ b t) =
    if nat_eq (code c) (code a) then b else translate c s t

-- `name.upper().replace("-", "_")` of an ASCII text.
env_name : String → String
unfolding translate
env_name String.[] = String.[]
env_name (String.◌∷◌ c s) =
    String.◌∷◌ (translate c "abcdefghijklmnopqrstuvwxyz-" "ABCDEFGHIJKLMNOPQRSTUVWXYZ_")
      (env_name s)

abbrev required_value : String → Option String → Result String
required_value name none = err (http_exception 500 (name ++ " is required for OBO token exchange"))
required_value name (some value) =
    if is_empty (strip value)
    then err (http_exception 500 (name ++ " is required for OBO token exchange"))
    else ok (strip value)

unfoldable pub required_env : Env → String → Result String
unfolding strip
required_env env name = required_value name (env name)

-- `value or …`
abbrev or_else : Option String → Result String → Result String
or_else (some value) default = ok value
or_else none default = default

unfoldable pub obo_config : Env → Option String → Result Auth0OnBehalfOfConfig
unfolding required_env remove_prefix rstrip_slash new_obo_config
obo_config env audience = do
  domain ← required_env env "AUTH0_DOMAIN"
  client_id ← required_env env "AUTH0_OBO_CLIENT_ID"
  client_secret ← required_env env "AUTH0_OBO_CLIENT_SECRET"
  audience' ← or_else (present audience) (required_env env "AUTH0_OBO_AUDIENCE")
  new_obo_config (record {
    domain = domain;
    token_endpoint =
        "https://"
        ++ (rstrip_slash (remove_prefix "http://" (remove_prefix "https://" domain))
            ++ "/oauth/token");
    client_id = client_id;
    client_secret = client_secret;
    audience = audience';
  })

abbrev and_more : Option String → List String → List String
and_more none rest = rest
and_more (some audience) rest = audience ∷ rest

-- The audiences of the steps that have one.
step_audiences : List WorkflowStep → List String
step_audiences [] = []
step_audiences (s ∷ ss) = and_more (present s.downstream_audience) (step_audiences ss)

abbrev default_audience : Env → Result String
default_audience env =
    or_else (present (env "AUTH0_OBO_DOWNSTREAM_AUDIENCE")) (required_env env "AUTH0_OBO_AUDIENCE")

-- The audience that is configured for the only server of the steps, if they have just one.
abbrev audience_of : Env → List String → Result String
audience_of env (name ∷ []) =
    or_else (present (env (env_name name ++ "_AUDIENCE"))) (default_audience env)
audience_of env names = default_audience env

unfoldable pub requested_audience : Env → WorkflowRecord → Result String
unfolding step_audiences sorted_set env_name required_env
requested_audience env workflow =
    audience_of env (sorted_set (step_audiences workflow.proposal.steps))

candidate_scopes : List ToolIntent → Result (List String)
unfolding get_tool_authorization
candidate_scopes [] = ok []
candidate_scopes (i ∷ is) = do
  spec ← get_tool_authorization i.tool_name
  rest ← candidate_scopes is
  ok (append spec.auth0_scope_candidates rest)

unfoldable pub obo_requested_scopes : WorkflowRecord → Result (List String)
unfolding candidate_scopes sorted_set
obo_requested_scopes workflow = do
  scopes ← candidate_scopes workflow.tool_intents
  ok (sorted_set (append workflow.policy.required_scopes scopes))

-- The request that `_exchange_obo_token` makes for a workflow and an audience.
unfoldable pub exchange_request :
    WorkflowRecord → ApprovedWorkflow → String → String → Result WorkflowTokenExchangeRequest
unfolding obo_requested_scopes new_exchange_request
exchange_request workflow approval auth_context_ref audience = do
  scopes ← obo_requested_scopes workflow
  new_exchange_request (record {
    user_id = workflow.user_id;
    session_id = workflow.session_id;
    workflow_id = workflow.workflow_id;
    approval_id = approval.approval_id;
    plan_hash = workflow.plan_hash;
    tenant_id = workflow.proposal.tenant_id;
    auth_context_ref = auth_context_ref;
    requested_scopes = scopes;
    requested_audience = some audience;
    ttl_seconds = some 900;
  })
