-- ===== src/AgentService/Registration.antt =====
-- services/agent_service/agent_service/app.py: the handler of `POST /token-context`.
use user_delegated_auth_serv.Base.{
  ℕ, ◌+◌, String, ◌≡◌, refl, sym, ap, Option, some, Result, ok, err, http_exception, opt_eq,
  opt_eq_iff, Bool-cases, ◌⊎◌, inl, inr, if◌then◌else◌,
}
use user_delegated_auth_serv.Json.{str, Fields, end, field}
use user_delegated_auth_serv.SessionState.InternalAuth.{
  TrustedSessionContext, verify_session_context,
}
use user_delegated_auth_serv.EgressGateway.Handler.{internal_auth_secret}
use user_delegated_auth_serv.AgentService.Models.{
  TokenRegistryRecord, TokenContextRegistrationRequest,
}
use user_delegated_auth_serv.AgentService.Store as Stores
use user_delegated_auth_serv.AgentService.World.{World, Outside, Action, raise, continue, ◌>>=◌}
use user_delegated_auth_serv.AgentService.Approval.{trusted_context, or_401}

module _ (outside : Outside) where
  abbrev registration :
      TrustedSessionContext → TokenContextRegistrationRequest → ℕ → TokenRegistryRecord
  registration context request now = record {
    user_id = context.user_id;
    session_id = context.session_id;
    tenant_id = context.tenant_id;
    token_ref = request.token_ref;
    auth_context_ref = request.auth_context_ref;
    updated_at = now;
  }

  abbrev register : TrustedSessionContext → TokenContextRegistrationRequest → Action Fields
  register context request w = (
    ok (field "token_ref" (str request.token_ref) end),
    record w {
      store =
          Stores.register_auth_context (registration context request (outside.clock w.readings))
            w.store;
      readings = w.readings + 1;
    },
  )

  abbrev register_if_same : TokenContextRegistrationRequest → TrustedSessionContext → Action Fields
  register_if_same request context =
      if opt_eq (some request.token_ref) context.token_ref
      then register context request
      else raise (http_exception 403 "token_ref does not match trusted session context")

  unfoldable pub register_token_context :
      Option String → Option String → TokenContextRegistrationRequest → Action Fields
  unfolding trusted_context
  register_token_context encoded_context signature request = do
    context ← trusted_context outside encoded_context signature
    register_if_same request context

  module _ (encoded_context signature : Option String) (request : TokenContextRegistrationRequest)
      (w : World) where
    abbrev verified : Result TrustedSessionContext
    verified =
        verify_session_context outside.lib outside.codec (outside.clock w.readings) encoded_context
          signature (internal_auth_secret outside.env)

    -- A credential was stored: for the trusted context's own session and token reference.
    pub record IsRegistered (out : Result Fields × World) : Type 0 where
      pub context : TrustedSessionContext
      pub trusted : verified ≡ ok context
      pub own : context.token_ref ≡ some request.token_ref
      pub now : ℕ
      pub stored :
          (out.1).store ≡ Stores.register_auth_context (registration context request now) w.store

    after_context :
        (r : Result TrustedSessionContext) (v : World)
        → v.store ≡ w.store
        → verified ≡ r
        → let out = continue (register_if_same request) (or_401 outside r, v) in
          ((out.1).store ≡ w.store) ⊎ IsRegistered out
    after_context (err e) v same trusted = inl same
    after_context (ok context) v same trusted =
        elim (Bool-cases (opt_eq (some request.token_ref) context.token_ref)) [
          | inr b ↦ inl (rw b same)
          | inl b ↦ inr (
              rw b (record {
                context = context;
                trusted = trusted;
                own = sym ((opt_eq_iff (some request.token_ref) context.token_ref).0 b);
                now = outside.clock v.readings;
                stored = ap (Stores.register_auth_context _) same;
              }))
        ]

    -- The route either leaves the store as it was, or the signed context is trusted, the token
    -- reference is that context's own, and the credential is registered under it for the context's
    -- tenant, user and session.
    pub register_token_context-IsRegistered :
        (((register_token_context encoded_context signature request w).1).store ≡ w.store)
        ⊎ IsRegistered (register_token_context encoded_context signature request w)
    unfolding register_token_context trusted_context
    register_token_context-IsRegistered = after_context verified _ refl refl
