-- ===== src/EgressGateway/Handler.antt =====
-- The handler of `POST /egress/mcp` and the MCP call that it makes.
pub mod Calls
use Prim.Native.String.{◌++◌}
use user_delegated_auth_serv.Base.{
  ℕ, String, Bool, true, false, Option, none, some, List, [], ◌∷◌, Result, ok, err, ◌>>=◌,
  Exception, http_exception, class_name_of, internal_auth_error, ◌==◌, rstrip_slash, if◌then◌else◌,
}
use user_delegated_auth_serv.Externals.{Digests}
use user_delegated_auth_serv.Json.{Json, bool, str, arr, obj, Items, Fields, end, field, put}
use user_delegated_auth_serv.SessionState.InternalAuth.{
  TrustedSessionContext, ContextCodec, verify_session_context,
}
use user_delegated_auth_serv.EgressGateway.Models.{EgressRequest, EgressResponse}
use user_delegated_auth_serv.EgressGateway.Authorization.{derive_outbound_request}

-- What the MCP client library returns for a call, its content already dumped.
pub record CallToolResult : Type 0 where
  pub is_error : Bool
  pub contents : Json
  pub structured_content : Json
  pub content : Items

-- A call that leaves the gateway: where to, with which bearer token, and what for.
pub record McpCall : Type 0 where
  pub endpoint : String
  pub bearer : String
  pub tool_name : String
  pub arguments : Fields

-- `os.getenv`
abbrev pub Env : Type 0
Env = String → Option String

abbrev pub getenv_or : Env → String → String → String
getenv_or env name default = elim (env name) [ none ↦ default | some v ↦ v ]

unfoldable pub internal_auth_secret : Env → String
internal_auth_secret env = getenv_or env "INTERNAL_SERVICE_AUTH_SECRET" ""

unfoldable pub mcp_url : Env → String → Result String
mcp_url env target_mcp =
    if target_mcp == "network-mcp"
    then ok (getenv_or env "NETWORK_MCP_URL" "http://network-mcp:8011")
    else if target_mcp == "cloud-mcp"
    then ok (getenv_or env "CLOUD_MCP_URL" "http://cloud-mcp:8012")
    else err (http_exception 400 ("unsupported target_mcp: " ++ target_mcp))

-- `f"Bearer {payload.access_token}"`
abbrev bearer_of : Option String → String
bearer_of none = "Bearer None"
bearer_of (some token) = "Bearer " ++ token

-- `except Exception`: any failure of the call becomes a 502.
abbrev transport_failure : Exception → Exception
transport_failure e = http_exception 502 ("MCP transport call failed: " ++ class_name_of e)

unfoldable pub mcp_result_fields : CallToolResult → Fields
mcp_result_fields r = field "status" (str (if r.is_error then "failed" else "completed")) (
    field "is_error" (bool r.is_error) (
      field "data" r.contents
        (field "structured_content" r.structured_content (field "content" (arr r.content) end))))

abbrev called : Result CallToolResult → Result Fields
called (ok r) = ok (mcp_result_fields r)
called (err e) = err (transport_failure e)

-- A handler's answer, and the calls that it has made.
abbrev pub Answer : Type 0
Answer = Result EgressResponse × List McpCall

module _ (client : McpCall → Result CallToolResult) where
  abbrev call_of : EgressRequest → String → McpCall
  call_of payload url = record {
    endpoint = rstrip_slash url ++ "/mcp";
    bearer = bearer_of payload.access_token;
    tool_name = payload.tool_name;
    arguments = payload.arguments;
  }

  abbrev call_at : EgressRequest → Result String → Result Fields × List McpCall
  call_at payload (err e) = (err e, [])
  call_at payload (ok url) = (called (client (call_of payload url)), call_of payload url ∷ [])

  unfoldable pub call_mcp_tool : Env → EgressRequest → Result Fields × List McpCall
  unfolding mcp_url mcp_result_fields rstrip_slash
  call_mcp_tool env payload = call_at payload (mcp_url env payload.target_mcp)

  -- `response.outbound["mcp_result"] = …`
  abbrev with_result : EgressResponse → Result Fields × List McpCall → Answer
  with_result response (ok fields, calls) =
      (ok (record response { outbound = put "mcp_result" (obj fields) response.outbound }), calls)
  with_result response (err e, calls) = (err e, calls)

  abbrev respond : Env → EgressRequest → Result EgressResponse → Answer
  respond env payload (err e) = (err e, [])
  respond env payload (ok response) = with_result response (call_mcp_tool env payload)

  module _ (lib : Digests) (codec : ContextCodec) where
    abbrev context_error : Exception → Exception
    context_error (internal_auth_error text) = http_exception 401 text
    context_error e = e

    abbrev context_or_401 : Result TrustedSessionContext → Result TrustedSessionContext
    context_or_401 (ok context) = ok context
    context_or_401 (err e) = err (context_error e)

    unfoldable pub trusted_context_from_request :
        Env → ℕ → Option String → Option String → Result TrustedSessionContext
    unfolding verify_session_context internal_auth_secret
    trusted_context_from_request env now encoded_context signature =
        context_or_401 (
          verify_session_context lib codec now encoded_context signature (internal_auth_secret env))

    unfoldable pub egress_mcp : Env → ℕ → Option String → Option String → EgressRequest → Answer
    unfolding trusted_context_from_request derive_outbound_request call_mcp_tool
    egress_mcp env now encoded_context signature payload = respond env payload (do
      context ← trusted_context_from_request env now encoded_context signature
      derive_outbound_request lib (internal_auth_secret env) now payload context)
