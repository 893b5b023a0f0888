-- ===== src/EgressGateway/Handler/Calls.antt =====
-- Which MCP calls the gateway's handler makes.
use user_delegated_auth_serv.Base.{
  ℕ, String, ◌≡◌, refl, Option, List, [], ◌∷◌, Result, ok, err, ◌>>=◌, >>=-eq-ok, ◌⊎◌, inl, inr,
}
use user_delegated_auth_serv.Externals.{Digests}
use user_delegated_auth_serv.Json.{Fields}
use user_delegated_auth_serv.SessionState.InternalAuth.{TrustedSessionContext, ContextCodec}
use user_delegated_auth_serv.EgressGateway.Models.{EgressRequest, EgressResponse}
use user_delegated_auth_serv.EgressGateway.Authorization.{derive_outbound_request}
use user_delegated_auth_serv.EgressGateway.Authorization.Granted.{
  IsAuthorized, derive_outbound_request-eq-ok_iff,
}
use user_delegated_auth_serv.SessionState.InternalAuth.Verified.{
  IsTrusted, verify_session_context-eq-ok_iff,
}
use user_delegated_auth_serv.EgressGateway.Handler.{
  Env, McpCall, CallToolResult, call_of, call_at, call_mcp_tool, with_result, respond,
  context_or_401, trusted_context_from_request, internal_auth_secret, mcp_url, egress_mcp,
}

module _ (client : McpCall → Result CallToolResult) (lib : Digests) (codec : ContextCodec)
    (env : Env) (now : ℕ) (encoded_context signature : Option String)
    (payload : EgressRequest) where
  -- The one call that a request may lead to: its headers carry a trusted context, it is authorised
  -- for that context, and the call is for its tool, arguments and token at its server.
  pub record IsPermitted (call : McpCall) : Type 0 where
    pub context : TrustedSessionContext
    pub trusted :
        IsTrusted lib codec now encoded_context signature (internal_auth_secret env) context
    pub authorized : IsAuthorized lib (internal_auth_secret env) now payload context
    pub url : String
    pub server : mcp_url env payload.target_mcp ≡ ok url
    pub same : call ≡ call_of client payload url

  context_or_401-eq-ok :
      (r : Result TrustedSessionContext) (context : TrustedSessionContext)
      → context_or_401 client lib codec r ≡ ok context
      → r ≡ ok context
  context_or_401-eq-ok (ok c) context e = e
  context_or_401-eq-ok (err x) context e = cc

  -- What the handler did: nothing, or one permitted call.
  abbrev pub IsCareful : List McpCall → Type 0
  IsCareful calls = (calls ≡ []) ⊎ ((call : McpCall) × (calls ≡ call ∷ []) × IsPermitted call)

  with_result-calls :
      (response : EgressResponse) (r : Result Fields × List McpCall)
      → (with_result client response r).1 ≡ r.1
  with_result-calls response (ok fields, calls) = refl
  with_result-calls response (err e, calls) = refl

  call_at-IsCareful :
      (context : TrustedSessionContext) (url : Result String)
      → IsTrusted lib codec now encoded_context signature (internal_auth_secret env) context
      → IsAuthorized lib (internal_auth_secret env) now payload context
      → mcp_url env payload.target_mcp ≡ url
      → IsCareful ((call_at client payload url).1)
  call_at-IsCareful context (err e) trusted authorized server = inl refl
  call_at-IsCareful context (ok url) trusted authorized server = inr (
    call_of client payload url,
    refl,
    record {
      context = context;
      trusted = trusted;
      authorized = authorized;
      url = url;
      server = server;
      same = refl;
    },
  )

  abbrev decision : Result EgressResponse
  decision = do
    context ← trusted_context_from_request client lib codec env now encoded_context signature
    derive_outbound_request lib (internal_auth_secret env) now payload context

  respond-IsCareful :
      (r : Result EgressResponse) → decision ≡ r → IsCareful ((respond client env payload r).1)
  unfolding call_mcp_tool trusted_context_from_request
  respond-IsCareful (err e) d = inl refl
  respond-IsCareful (ok response) d =
      let (context, found, derived) =
        >>=-eq-ok (trusted_context_from_request client lib codec env now encoded_context signature)
          _ d in
      let trusted =
        (verify_session_context-eq-ok_iff lib codec now (internal_auth_secret env) context
            encoded_context signature).0
          (context_or_401-eq-ok _ context found) in
      let (authorized, same) =
        (derive_outbound_request-eq-ok_iff lib (internal_auth_secret env) now payload context
            response).0
          derived in
      rw (with_result-calls response)
        (call_at-IsCareful context (mcp_url env payload.target_mcp) trusted authorized refl)

  -- The handler makes at most one call to an MCP server, and only for a request whose signed context
  -- is trusted and which is authorised for it.
  pub egress_mcp-IsCareful :
      IsCareful ((egress_mcp client lib codec env now encoded_context signature payload).1)
  unfolding egress_mcp
  egress_mcp-IsCareful = respond-IsCareful decision refl
