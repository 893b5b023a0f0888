-- ===== src/Supervisor/Handler.antt =====
-- services/supervisor/agent_service_supervisor/routes.py: POST /identity/auth0/session.
pub mod Trusted
use Prim.Native.String.{◌++◌}
use mathlib.Core.List.{◌++◌ as append}
use user_delegated_auth_serv.Base.{
  ℕ, String, Bool, true, false, not, Option, none, some, List, [], ◌∷◌, Result, ok, err, Exception,
  http_exception, internal_auth_error, length, is_empty, list_eq, opt_eq, ◌==◌, if◌then◌else◌,
}
use user_delegated_auth_serv.Externals.{Digests}
use user_delegated_auth_serv.Json.{
  Json, null, int, str, arr, obj, pos, Fields, end, field, strings, nullable,
}
use user_delegated_auth_serv.Json.Dumps.{join}
use user_delegated_auth_serv.SessionState.InternalAuth.{
  TrustedSessionContext, ContextCodec, verify_session_context,
}
use user_delegated_auth_serv.Supervisor.Models.{
  SupervisorSettings, UserPersona, Auth0UserSessionMetadataRequest, Auth0UserSessionMetadataResult,
}
use user_delegated_auth_serv.Supervisor.Network.{
  Network, Sending, ◌>>=◌, ◌>>◌, lift, quietly, emit_trace, emit_log,
}
use user_delegated_auth_serv.Supervisor.Metadata.{load_auth0_user_metadata}
use user_delegated_auth_serv.Supervisor.Described.{described}

abbrev mismatch : String → Bool → List String
mismatch key same = if same then [] else key ∷ []

abbrev pub mismatches : Auth0UserSessionMetadataRequest → TrustedSessionContext → List String
mismatches request context =
    append (mismatch "session_id" (request.session_id == context.session_id)) (
      append (mismatch "tenant_id" (opt_eq request.tenant_id context.tenant_id)) (
        append (mismatch "token_ref" (opt_eq (some request.token_ref) context.token_ref)) (
          append (mismatch "token_scopes" (list_eq request.token_scopes context.token_scopes))
            (mismatch "user_id" (request.user_id == context.user_id)))))

abbrev none_of : List String → Result (Unit {0})
none_of [] = ok tt
none_of (key ∷ keys) = err (
    http_exception 403
      ("Auth0 metadata request does not match trusted session context: " ++ join ", " (key ∷ keys)))

unfoldable pub assert_metadata_request_matches_trusted_context :
    Auth0UserSessionMetadataRequest → TrustedSessionContext → Result (Unit {0})
unfolding join
assert_metadata_request_matches_trusted_context request context =
    none_of (mismatches request context)

abbrev context_or_401 : Result TrustedSessionContext → Result TrustedSessionContext
context_or_401 (err (internal_auth_error detail)) = err (http_exception 401 detail)
context_or_401 other = other

abbrev text_or_empty : Option String → String
text_or_empty none = ""
text_or_empty (some s) = s

module _ (network : Network) (settings : SupervisorSettings) where
  -- The event, as `model_dump(mode="json")` gives it.
  abbrev event_dump : String → String → String → Fields → Fields
  event_dump event_type user_id session_id attributes =
      field "event_id" (str ("evt-" ++ network.uuid4_hex event_type)) (
        field "event_type" (str event_type) (
          field "tenant_id" null (
            field "user_id" (str user_id) (
              field "session_id" (str session_id) (
                field "workflow_id" null (
                  field "step_id" null (
                    field "agent_name" (str "supervisor") (
                      field "agentic_span_id" (str (event_type ++ (":" ++ session_id))) (
                        field "parent_agentic_span_id" null (
                          field "trace_id" null (
                            field "plan_hash" null (
                              field "approval_id" null (
                                field "idempotency_key" null (
                                  field "attributes" (obj attributes) (
                                    field "created_at" (str (network.created_at event_type))
                                      end)))))))))))))))

  abbrev emit_to : Option String → String → String → String → Fields → Sending (Unit {0})
  emit_to none event_type user_id session_id attributes = lift (ok tt)
  emit_to (some url) event_type user_id session_id attributes =
      if is_empty url
      then lift (ok tt)
      else quietly (
          emit_trace network "supervisor" (event_dump event_type user_id session_id attributes)
          >> emit_log network "supervisor" "info" event_type attributes
              (event_type ++ (":" ++ session_id)))

  unfoldable pub emit_sidecar_event : String → String → String → Fields → Sending (Unit {0})
  unfolding emit_trace emit_log
  emit_sidecar_event event_type user_id session_id attributes =
      emit_to settings.observability_sidecar_url event_type user_id session_id attributes

  -- The last two events, and the answer.
  abbrev pub materialized :
      Auth0UserSessionMetadataRequest → List String → List String → Sending (Unit {0})
  materialized request issued_scopes metadata_tools =
      emit_sidecar_event "identity.auth0_user_session_materialized" request.user_id
        request.session_id
        (field "scopes" (arr (strings issued_scopes)) (
          field "audience" (nullable request.audience) (
            field "token_ref" (str request.token_ref)
              (field "allowed_tools" (arr (strings metadata_tools)) end))))

  abbrev pub on_login :
      Auth0UserSessionMetadataRequest → List String → List String → UserPersona → Sending (Unit {0})
  on_login request issued_scopes metadata_tools persona =
      emit_sidecar_event "on_login" request.user_id request.session_id (
        field "display_name" (str persona.display_name) (
          field "headline" (str persona.headline) (
            field "traits" (arr (strings persona.traits)) (
              field "allowed_tools" (arr (strings metadata_tools))
                (field "scope_count" (int (pos (length issued_scopes))) end)))))

  abbrev pub result_of :
      Auth0UserSessionMetadataRequest
      → List String
      → List String
      → UserPersona
      → Auth0UserSessionMetadataResult
  result_of request issued_scopes metadata_tools persona = record {
    scope = join " " issued_scopes;
    audience = request.audience;
    token_ref = request.token_ref;
    user_id = request.user_id;
    user_email = request.user_email;
    allowed_tools = metadata_tools;
    persona = persona;
  }

  unfoldable pub announce :
      Auth0UserSessionMetadataRequest
      → List String × List String × UserPersona
      → Sending Auth0UserSessionMetadataResult
  unfolding emit_sidecar_event join
  announce request (issued_scopes, metadata_tools, persona) = do
    materialized request issued_scopes metadata_tools
    on_login request issued_scopes metadata_tools persona
    lift (ok (result_of request issued_scopes metadata_tools persona))

  unfoldable pub materialize :
      Auth0UserSessionMetadataRequest → Fields → Sending Auth0UserSessionMetadataResult
  unfolding announce described
  materialize request metadata = lift (described request metadata) >>= announce request

  abbrev pub login_succeeded : Auth0UserSessionMetadataRequest → Sending (Unit {0})
  login_succeeded request =
      emit_sidecar_event "frontend.auth0_user_login_succeeded" request.user_id request.session_id (
        field "scope_count" (int (pos (length request.token_scopes)))
          (field "audience" (nullable request.audience) end))

  -- What follows the two checks.
  unfoldable pub load_checked :
      Auth0UserSessionMetadataRequest → Sending Auth0UserSessionMetadataResult
  unfolding emit_sidecar_event load_auth0_user_metadata materialize
  load_checked request = do
    login_succeeded request
    metadata ← load_auth0_user_metadata network settings request.user_id
    materialize request metadata

  module _ (lib : Digests) (codec : ContextCodec) where
    -- `_trusted_context_from_request`
    unfoldable pub trusted_context_from_request :
        ℕ → Option String → Option String → Result TrustedSessionContext
    unfolding verify_session_context
    trusted_context_from_request now encoded_context signature = context_or_401 (
        verify_session_context lib codec now encoded_context signature
          (text_or_empty settings.internal_service_auth_secret))

    unfoldable pub load_auth0_user_session_metadata :
        ℕ
        → Option String
        → Option String
        → Auth0UserSessionMetadataRequest
        → Sending Auth0UserSessionMetadataResult
    unfolding trusted_context_from_request assert_metadata_request_matches_trusted_context
        load_checked
    load_auth0_user_session_metadata now encoded_context signature request = do
      context ← lift (trusted_context_from_request now encoded_context signature)
      lift (assert_metadata_request_matches_trusted_context request context)
      load_checked request
