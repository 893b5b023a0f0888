-- ===== src/Supervisor/Handler/Trusted.antt =====
-- services/supervisor/agent_service_supervisor/routes.py: whose metadata the supervisor loads.
use user_delegated_auth_serv.Base.{
  ℕ, String, ◌≡◌, refl, ap, ◌∙◌, ◌⊎◌, inl, inr, Option, some, List, [], Result, ok, err, Exception,
  Result-cases, list_eq_iff, opt_eq_iff, eq_iff, arith, ◌↔◌, internal_auth_error,
}
use user_delegated_auth_serv.Externals.{Digests}
use user_delegated_auth_serv.SessionState.InternalAuth.{
  TrustedSessionContext, ContextCodec, verify_session_context,
}
use user_delegated_auth_serv.Supervisor.Models.{
  SupervisorSettings, UserPersona, Auth0UserSessionMetadataRequest, Auth0UserSessionMetadataResult,
}
use user_delegated_auth_serv.Supervisor.Network.{Network, Sending, lift, ◌>>=◌, ◌>>◌}
use user_delegated_auth_serv.Json.{Fields}
use user_delegated_auth_serv.Supervisor.Metadata.{load_auth0_user_metadata}
use user_delegated_auth_serv.Supervisor.Described.{described}
use user_delegated_auth_serv.Supervisor.Handler.{
  load_auth0_user_session_metadata, assert_metadata_request_matches_trusted_context, materialize,
  announce, materialized, on_login, result_of, login_succeeded, load_checked,
  trusted_context_from_request, text_or_empty, context_or_401,
}

-- A body that names the context's own identity, token reference and scopes.
pub record Matches (request : Auth0UserSessionMetadataRequest) (context : TrustedSessionContext)
    : Type 0 where
  pub session : request.session_id ≡ context.session_id
  pub tenant : request.tenant_id ≡ context.tenant_id
  pub token : some request.token_ref ≡ context.token_ref
  pub scopes : request.token_scopes ≡ context.token_scopes
  pub user : request.user_id ≡ context.user_id

-- The check passes exactly those bodies.
pub assert_iff :
    (request : Auth0UserSessionMetadataRequest) (context : TrustedSessionContext)
    → (assert_metadata_request_matches_trusted_context request context ≡ ok tt)
      ↔ Matches request context
unfolding assert_metadata_request_matches_trusted_context
assert_iff request context =
    let session = eq_iff request.session_id context.session_id in
    let tenant = opt_eq_iff request.tenant_id context.tenant_id in
    let token = opt_eq_iff (some request.token_ref) context.token_ref in
    let scopes = list_eq_iff request.token_scopes context.token_scopes in
    let user = eq_iff request.user_id context.user_id in
    (
      λ h. record {
        session = session.0 (ground arith);
        tenant = tenant.0 (ground arith);
        token = token.0 (ground arith);
        scopes = scopes.0 (ground arith);
        user = user.0 (ground arith);
      },
      λ m.
          rw
            (
              session.1 m.session,
              tenant.1 m.tenant,
              token.1 m.token,
              scopes.1 m.scopes,
              user.1 m.user,
            )
            refl,
    )

-- A result that repeats the user and the token reference of the body.
abbrev Repeats : Auth0UserSessionMetadataRequest → Result Auth0UserSessionMetadataResult → Type 0
Repeats request (err e) = Unit
Repeats request (ok result) =
    (result.user_id ≡ request.user_id) × (result.token_ref ≡ request.token_ref)

Repeats->>= {ℓ} :
    {A : Type ℓ} (request : Auth0UserSessionMetadataRequest) (m : Sending A)
    (next : A → Sending Auth0UserSessionMetadataResult)
    → ((a : A) → Repeats request (next a).0)
    → Repeats request (m >>= next).0
Repeats->>= request (err e, sent) next h = tt
Repeats->>= request (ok a, sent) next h = h a

Repeats-announced :
    (request : Auth0UserSessionMetadataRequest) (first second : Sending (Unit {0}))
    (result : Auth0UserSessionMetadataResult)
    → Repeats request (ok result)
    → Repeats request (first >> (second >> lift (ok result))).0
Repeats-announced request (err e, sent) second result h = tt
Repeats-announced request (ok u, sent) (err e, sent') result h = tt
Repeats-announced request (ok u, sent) (ok v, sent') result h = h

context_or_401-eq-ok :
    (r : Result TrustedSessionContext) (context : TrustedSessionContext)
    → context_or_401 r ≡ ok context
    → r ≡ ok context
context_or_401-eq-ok (err (internal_auth_error detail)) context e = cc
context_or_401-eq-ok (err x) context e = cc
context_or_401-eq-ok (ok trusted) context e = e

-- What the session of an answer is, for a body that matches the context.
abbrev pub IsAbout : TrustedSessionContext → Result Auth0UserSessionMetadataResult → Type 0
IsAbout context (err e) = Unit
IsAbout context (ok result) =
    (result.user_id ≡ context.user_id) × (some result.token_ref ≡ context.token_ref)

module _ (network : Network) (settings : SupervisorSettings) (lib : Digests) (codec : ContextCodec)
    (now : ℕ) (encoded_context signature : Option String)
    (request : Auth0UserSessionMetadataRequest) where
  abbrev answer : Sending Auth0UserSessionMetadataResult
  answer =
      load_auth0_user_session_metadata network settings lib codec now encoded_context signature
        request

  abbrev pub secret : String
  secret = text_or_empty settings.internal_service_auth_secret

  trusted_lem :
      (context : TrustedSessionContext)
      → trusted_context_from_request network settings lib codec now encoded_context signature
        ≡ ok context
      → verify_session_context lib codec now encoded_context signature secret ≡ ok context
  unfolding trusted_context_from_request
  trusted_lem context e = context_or_401-eq-ok _ context e

  announce-Repeats :
      (d : List String × List String × UserPersona)
      → Repeats request (announce network settings request d).0
  unfolding announce
  announce-Repeats (issued_scopes, metadata_tools, persona) =
      Repeats-announced request (materialized network settings request issued_scopes metadata_tools)
        (on_login network settings request issued_scopes metadata_tools persona)
        (result_of network settings request issued_scopes metadata_tools persona) (refl, refl)

  materialize-Repeats :
      (metadata : Fields) → Repeats request (materialize network settings request metadata).0
  unfolding materialize
  materialize-Repeats metadata =
      Repeats->>= request (lift (described request metadata)) (announce network settings request)
        announce-Repeats

  load_checked-Repeats : Repeats request (load_checked network settings request).0
  unfolding load_checked
  load_checked-Repeats = Repeats->>= request (login_succeeded network settings request) _ (λ u.
      Repeats->>= request (load_auth0_user_metadata network settings request.user_id)
        (materialize network settings request) materialize-Repeats)

  IsAbout-of_Repeats :
      (context : TrustedSessionContext) (r : Result Auth0UserSessionMetadataResult)
      → Matches request context
      → Repeats request r
      → IsAbout context r
  IsAbout-of_Repeats context (err e) m h = tt
  IsAbout-of_Repeats context (ok result) m h = (h.0 ∙ m.user, ap some h.1 ∙ m.token)

  -- The supervisor either raises and has sent nothing, neither to Auth0 nor to the sidecar, or the
  -- signed context is trusted and the body names its session, tenant, token reference, scopes and user;
  -- a result is then about that user and that token reference.
  pub load_auth0_user_session_metadata-IsAbout :
      ((e : Exception) × (answer ≡ (err e, [])))
      ⊎ ((context : TrustedSessionContext) × (verify_session_context lib codec now encoded_context
              signature secret
            ≡ ok context)
          × Matches request context
          × IsAbout context answer.0)
  unfolding load_auth0_user_session_metadata
  load_auth0_user_session_metadata-IsAbout =
      elim (Result-cases
        (trusted_context_from_request network settings lib codec now encoded_context signature)) [
          | inl (e, p) ↦ inl (e, rw p refl)
          | inr (context, p) ↦
              elim (Result-cases
                (assert_metadata_request_matches_trusted_context request context)) [
                  | inl (e, q) ↦ inl (e, rw (p, q) refl)
                  | inr (u, q) ↦
                      (let m = (assert_iff request context).0 q in
                        inr (
                          context,
                          trusted_lem context p,
                          m,
                          rw (p, q)
                              (IsAbout-of_Repeats context (load_checked network settings request).0
                                m load_checked-Repeats),
                        ))
                ]
        ]
