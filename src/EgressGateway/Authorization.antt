-- ===== src/EgressGateway/Authorization.antt =====
-- `derive_outbound_request` and the checks that it makes.
pub mod Required
pub mod Granted
use Prim.Native.String.{◌++◌}
use user_delegated_auth_serv.Base.{
  ℕ, String, Bool, true, false, not, ◌||◌, ◌&&◌, Option, none, some, List, [], ◌∷◌, Result, ok, err,
  ◌>>=◌, ◌>>◌, guard, Exception, http_exception, execution_grant_error, ◌==◌, opt_eq, mem, leb,
  is_empty, keep, sorted, sorted_set, if◌then◌else◌,
}
use user_delegated_auth_serv.Externals.{Digests}
use user_delegated_auth_serv.Json.{Json, str, obj, Fields, end, field, put}
use user_delegated_auth_serv.Json.Equality.{json_eq}
use user_delegated_auth_serv.Json.Dumps.{join}
use user_delegated_auth_serv.WorkflowCore.Models.{Primitive, Method, ExecutionGrant}
use user_delegated_auth_serv.WorkflowCore.Catalog.{ToolAuthorizationSpec, get_tool_authorization}
use user_delegated_auth_serv.WorkflowCore.Grants.{
  primitive_text, method_text, verify_execution_grant,
}
use user_delegated_auth_serv.SessionState.InternalAuth.{TrustedSessionContext}
use user_delegated_auth_serv.EgressGateway.Models.{EgressRequest, EgressResponse}

abbrev read_like_primitives : List String
read_like_primitives =
    "discover" ∷ "discovery" ∷ "get" ∷ "list" ∷ "read" ∷ "retrieve" ∷ "search" ∷ []

abbrev mutation_primitives : List String
mutation_primitives =
    "create" ∷ "delete" ∷ "execute" ∷ "invoke" ∷ "mutate" ∷ "mutation" ∷ "patch" ∷ "post" ∷ "put"
    ∷ "run" ∷ "update" ∷ "write" ∷ []

abbrev mutation_methods : List String
mutation_methods = "POST" ∷ "PUT" ∷ "PATCH" ∷ "DELETE" ∷ []

abbrev pub redacted_header_value : String
redacted_header_value = "[REDACTED]"

-- `payload.primitive.lower()`
abbrev pub primitive_lower : Primitive → String
primitive_lower Primitive.discovery = "discovery"
primitive_lower Primitive.read = "read"
primitive_lower Primitive.execute = "execute"
primitive_lower Primitive.mutation = "mutation"

abbrev forbidden {ℓ} : {A : Type ℓ} → String → Result A
forbidden detail = err (http_exception 403 detail)

abbrev pub forbid : String → Exception
forbid detail = http_exception 403 detail

unfoldable pub is_read_boundary : String → String → Bool
is_read_boundary primitive method = mem primitive read_like_primitives || method == "GET"

unfoldable pub is_mcp_call_boundary : String → String → Option ToolAuthorizationSpec → Bool
is_mcp_call_boundary primitive method (some spec) = true
is_mcp_call_boundary primitive method none =
    mem primitive mutation_primitives || mem method mutation_methods

-- The keys of the pairs that differ.
unfoldable pub mismatches : List (String × Bool) → List String
mismatches [] = []
mismatches ((key, equal) ∷ rest) = if equal then mismatches rest else key ∷ mismatches rest

abbrev none_of : String → List String → Result (Unit {0})
none_of detail [] = ok tt
none_of detail (key ∷ keys) = forbidden (detail ++ join ", " (key ∷ keys))

abbrev pub is_expired : Option ℕ → ℕ → Bool
is_expired none now = false
is_expired (some expires_at) now = leb expires_at now

-- `not value` of `str | None`
abbrev pub is_absent : Option String → Bool
is_absent none = true
is_absent (some s) = is_empty s

-- What the grant and the request must agree on.
abbrev pub request_comparison : EgressRequest → ExecutionGrant → List (String × Bool)
request_comparison payload grant =
    ("approval_id", opt_eq payload.approval_id (some grant.approval_id))
    ∷ ("arguments", json_eq (obj grant.arguments) (obj payload.arguments))
    ∷ ("method", method_text grant.method == method_text payload.method)
    ∷ ("primitive", primitive_text grant.primitive == primitive_text payload.primitive)
    ∷ ("target_mcp", grant.target_mcp == payload.target_mcp)
    ∷ ("tool_name", grant.tool_name == payload.tool_name)
    ∷ ("workflow_id", grant.workflow_id == payload.workflow_id)
    ∷ []

abbrev pub context_comparison : ExecutionGrant → TrustedSessionContext → List (String × Bool)
context_comparison grant context =
    ("session_id", grant.session_id == context.session_id)
    ∷ ("tenant_id", opt_eq grant.tenant_id context.tenant_id)
    ∷ ("user_id", grant.user_id == context.user_id)
    ∷ []

-- `sorted(set(grant.required_scopes).difference(payload.token_scopes))`
unfoldable pub missing_scopes : ExecutionGrant → EgressRequest → List String
unfolding sorted_set
missing_scopes grant payload =
    sorted_set (keep (λ scope. not (mem scope payload.token_scopes)) grant.required_scopes)

abbrev no_missing : List String → Result (Unit {0})
no_missing [] = ok tt
no_missing (scope ∷ scopes) = forbidden "access token is missing grant-required scopes"

unfoldable pub assert_grant_matches_request :
    ℕ → EgressRequest → ExecutionGrant → TrustedSessionContext → Result (Unit {0})
unfolding mismatches missing_scopes sorted join json_eq
assert_grant_matches_request now payload grant context = do
  guard (not (is_expired grant.expires_at now)) (forbid "execution grant has expired")
  none_of "execution grant does not match request: "
      (sorted (mismatches (request_comparison payload grant)))
  none_of "execution grant does not match trusted session context: "
      (mismatches (context_comparison grant context))
  no_missing (missing_scopes grant payload)
  guard (not (is_absent grant.audience)) (forbid "execution grant audience is required")
  guard (opt_eq payload.token_audience grant.audience)
      (forbid "access token audience does not match execution grant")

-- `except ExecutionGrantError`
abbrev grant_error_as_403 : Result (Unit {0}) → Result (Unit {0})
grant_error_as_403 (err (execution_grant_error text)) = forbidden text
grant_error_as_403 r = r

-- `_required_tool_authorization`: a `KeyError` becomes a 403.
abbrev tool_or_403 : Result ToolAuthorizationSpec → Result ToolAuthorizationSpec
tool_or_403 (ok spec) = ok spec
tool_or_403 (err e) = forbidden "known tool authorization is required for outbound MCP execution"

unfoldable pub required_tool_authorization : String → Result ToolAuthorizationSpec
unfolding get_tool_authorization
required_tool_authorization tool_name = tool_or_403 (get_tool_authorization tool_name)

-- `spec.downstream_audience and payload.target_mcp != spec.downstream_audience`
abbrev pub is_other_target : Option String → String → Bool
is_other_target none target_mcp = false
is_other_target (some audience) target_mcp = not (is_empty audience) && not (target_mcp == audience)

abbrev authn_header : EgressRequest → Fields
authn_header payload =
    if is_read_boundary (primitive_lower payload.primitive) (method_text payload.method)
      && not (is_absent payload.obo_token_ref)
    then field "X-AuthN-Context" (str redacted_header_value) end
    else end

unfoldable pub outbound_headers : EgressRequest → Fields
unfolding is_read_boundary put
outbound_headers payload = put "Authorization" (str redacted_header_value) (authn_header payload)

unfoldable pub outbound_response : EgressRequest → EgressResponse
unfolding outbound_headers
outbound_response payload = record {
  primitive = primitive_text payload.primitive;
  method = method_text payload.method;
  target_mcp = payload.target_mcp;
  tool_name = payload.tool_name;
  arguments = payload.arguments;
  workflow_id = payload.workflow_id;
  approval_id = payload.approval_id;
  obo_token_ref = payload.obo_token_ref;
  outbound = field "method" (str (method_text payload.method)) (
      field "target_mcp" (str payload.target_mcp) (
        field "tool_name" (str payload.tool_name) (
          field "headers" (obj (outbound_headers payload))
            (field "arguments" (obj payload.arguments) end))));
}

module _ (lib : Digests) (secret : String) (now : ℕ) where
  abbrev check_grant :
      EgressRequest → TrustedSessionContext → Option ExecutionGrant → Result (Unit {0})
  check_grant payload context none =
      forbidden "execution_grant is required for outbound MCP execution"
  check_grant payload context (some grant) = do
    grant_error_as_403 (verify_execution_grant lib grant payload.execution_grant_signature secret)
    assert_grant_matches_request now payload grant context

  unfoldable pub authorize_execution : EgressRequest → TrustedSessionContext → Result (Unit {0})
  unfolding assert_grant_matches_request verify_execution_grant
  authorize_execution payload context = do
    guard (not (is_absent payload.access_token))
        (forbid "access_token is required for outbound MCP execution")
    check_grant payload context payload.execution_grant

  abbrev check_boundary :
      EgressRequest → TrustedSessionContext → ToolAuthorizationSpec → Bool → Result (Unit {0})
  check_boundary payload context spec false = ok tt
  check_boundary payload context spec true = do
    guard (not (is_other_target spec.downstream_audience payload.target_mcp))
        (forbid "target_mcp does not match tool authorization catalog")
    authorize_execution payload context

  unfoldable pub derive_outbound_request :
      EgressRequest → TrustedSessionContext → Result EgressResponse
  unfolding required_tool_authorization is_mcp_call_boundary authorize_execution outbound_response
  derive_outbound_request payload context = do
    spec ← required_tool_authorization payload.tool_name
    check_boundary payload context spec (
        is_mcp_call_boundary (primitive_lower payload.primitive) (method_text payload.method)
          (some spec))
    ok (outbound_response payload)
