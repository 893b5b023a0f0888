-- ===== src/EgressGateway/Authorization/Granted.antt =====
-- When the gateway lets a request through to an MCP server.
use user_delegated_auth_serv.Base.{
  ℕ, String, ◌≡◌, refl, sym, ap, ◌∙◌, ◌↔◌, false, not, Option, none, some, List, [], ◌∷◌, Result,
  ok, err, ◌>>=◌, ◌>>◌, >>-eq-ok_value, guard, guard-eq-ok, guard-ok, not-eq-true, in_order,
  in_order_iff, arith, is_empty, eq_iff, execution_grant_error,
}
use user_delegated_auth_serv.Externals.{Digests}
use user_delegated_auth_serv.WorkflowCore.Models.{ExecutionGrant}
use user_delegated_auth_serv.WorkflowCore.Catalog.{ToolAuthorizationSpec, get_tool_authorization}
use user_delegated_auth_serv.WorkflowCore.Grants.{verify_execution_grant}
use user_delegated_auth_serv.WorkflowCore.Grants.Signing.{
  IsSigned, verify_execution_grant-eq-ok_iff,
}
use user_delegated_auth_serv.SessionState.InternalAuth.{TrustedSessionContext}
use user_delegated_auth_serv.EgressGateway.Models.{EgressRequest, EgressResponse}
use user_delegated_auth_serv.EgressGateway.Authorization.{
  is_absent, is_other_target, forbid, grant_error_as_403, check_grant, tool_or_403,
  assert_grant_matches_request, authorize_execution, outbound_response, derive_outbound_request,
}
use user_delegated_auth_serv.EgressGateway.Authorization.Required.{
  Matches, assert_grant_matches_request-eq-ok_iff,
}

module _ (lib : Digests) (secret : String) (now : ℕ) (payload : EgressRequest)
    (context : TrustedSessionContext) where
  -- The request carries an access token and a grant, signed under the gateway's secret, for this
  -- request, session and token.
  pub record IsGranted : Type 0 where
    pub token : is_absent payload.access_token ≡ false
    pub grant : ExecutionGrant
    pub present : payload.execution_grant ≡ some grant
    pub signed : IsSigned lib grant payload.execution_grant_signature secret
    pub matches : Matches now payload grant context

  -- The tool is in the catalogue, at the server that the catalogue names for it.
  pub record IsAuthorized : Type 0 where
    pub spec : ToolAuthorizationSpec
    pub listed : get_tool_authorization payload.tool_name ≡ ok spec
    pub target :
        (a : String)
        → spec.downstream_audience ≡ some a
        → is_empty a ≡ false
        → payload.target_mcp ≡ a
    pub granted : IsGranted

  as_403-eq-ok : (r : Result (Unit {0})) → (grant_error_as_403 r ≡ ok tt) ↔ (r ≡ ok tt)
  as_403-eq-ok (ok tt) = (λ h. h, λ h. h)
  as_403-eq-ok (err (execution_grant_error text)) = (λ h. cc, λ h. cc)
  as_403-eq-ok (err e) = (λ h. cc, λ h. cc)

  abbrev call_checks : List (Result (Unit {0}))
  call_checks =
      guard (not (is_absent payload.access_token))
        (forbid "access_token is required for outbound MCP execution")
      ∷ check_grant lib secret now payload context payload.execution_grant
      ∷ []

  authorize_lem : authorize_execution lib secret now payload context ≡ in_order call_checks
  unfolding authorize_execution
  authorize_lem = refl

  check_grant-eq-ok_iff :
      (grant : ExecutionGrant)
      → (check_grant lib secret now payload context (some grant) ≡ ok tt) ↔ (
          IsSigned lib grant payload.execution_grant_signature secret
          × Matches now payload grant context)
  check_grant-eq-ok_iff grant =
      let checks = in_order_iff (
        grant_error_as_403
          (verify_execution_grant lib grant payload.execution_grant_signature secret)
        ∷ assert_grant_matches_request now payload grant context
        ∷ []) in
      let signed =
        verify_execution_grant-eq-ok_iff lib grant payload.execution_grant_signature secret in
      let matched = assert_grant_matches_request-eq-ok_iff now payload grant context in
      (
        λ e. let (v, (m, _)) = checks.0 e in (signed.0 ((as_403-eq-ok _).0 v), matched.0 m),
        λ (v, m). checks.1 ((as_403-eq-ok _).1 (signed.1 v), (matched.1 m, tt)),
      )

  granted_of_check :
      (g : Option ExecutionGrant)
      → payload.execution_grant ≡ g
      → is_absent payload.access_token ≡ false
      → check_grant lib secret now payload context g ≡ ok tt
      → IsGranted
  granted_of_check none p t e = cc
  granted_of_check (some grant) p t e =
      let (signed, matches) = (check_grant-eq-ok_iff grant).0 e in
      record { token = t; grant = grant; present = p; signed = signed; matches = matches }

  -- The checks of the call pass exactly when the request is granted.
  pub authorize_execution-eq-ok_iff :
      (authorize_execution lib secret now payload context ≡ ok tt) ↔ IsGranted
  authorize_execution-eq-ok_iff = (
    λ e.
        let (token, (check, _)) = (in_order_iff call_checks).0 (sym authorize_lem ∙ e) in
        granted_of_check payload.execution_grant refl (not-eq-true _ (guard-eq-ok _ _ token)) check,
    λ g.
        authorize_lem
        ∙ (in_order_iff call_checks).1 (
          guard-ok _ _ (ap not g.token),
          (
            ap (check_grant lib secret now payload context) g.present
                ∙ (check_grant-eq-ok_iff g.grant).1 (g.signed, g.matches),
            tt,
          ),
        ),
  )

  other_target_of :
      (b target : String)
      → (is_empty b ≡ false → target ≡ b)
      → is_other_target (some b) target ≡ false
  other_target_of String.[] target h = refl
  other_target_of (String.◌∷◌ c b) target h = rw ((eq_iff target (String.◌∷◌ c b)).1 (h refl))

  target_iff :
      (audience : Option String) (target : String)
      → (is_other_target audience target ≡ false)
        ↔ ((a : String) → audience ≡ some a → is_empty a ≡ false → target ≡ a)
  target_iff none target = (λ h a e. cc, λ h. refl)
  target_iff (some b) target =
      (λ h a e n. ground (arith, eq_iff target b), λ h. other_target_of b target (h b refl))

  abbrev boundary_checks : ToolAuthorizationSpec → List (Result (Unit {0}))
  boundary_checks spec =
      guard (not (is_other_target spec.downstream_audience payload.target_mcp))
        (forbid "target_mcp does not match tool authorization catalog")
      ∷ authorize_execution lib secret now payload context
      ∷ []

  abbrev proceed : Result ToolAuthorizationSpec → Result EgressResponse
  proceed r = do
    spec ← tool_or_403 r
    in_order (boundary_checks spec)
    ok (outbound_response payload)

  proceed_lem :
      derive_outbound_request lib secret now payload context
      ≡ proceed (get_tool_authorization payload.tool_name)
  unfolding derive_outbound_request
  proceed_lem = refl

  proceed_sound :
      (r : Result ToolAuthorizationSpec) (response : EgressResponse)
      → get_tool_authorization payload.tool_name ≡ r
      → proceed r ≡ ok response
      → IsAuthorized × (response ≡ outbound_response payload)
  proceed_sound (err x) response p e = cc
  proceed_sound (ok spec) response p e =
      let (checks, answer) =
        (>>-eq-ok_value (in_order (boundary_checks spec)) (outbound_response payload) response).0
          e in
      let (target, (call, _)) = (in_order_iff (boundary_checks spec)).0 checks in
      (
        record {
          spec = spec;
          listed = p;
          target = (target_iff _ _).0 (not-eq-true _ (guard-eq-ok _ _ target));
          granted = authorize_execution-eq-ok_iff.0 call;
        },
        answer,
      )

  proceed_complete :
      (response : EgressResponse) (a : IsAuthorized)
      → response ≡ outbound_response payload
      → proceed (ok a.spec) ≡ ok response
  proceed_complete response a e =
      (>>-eq-ok_value (in_order (boundary_checks a.spec)) (outbound_response payload) response).1 (
        (in_order_iff (boundary_checks a.spec)).1 (
          guard-ok _ _ (ap not ((target_iff _ _).1 a.target)),
          (authorize_execution-eq-ok_iff.1 a.granted, tt),
        ),
        e,
      )

  pub derive_outbound_request-eq-ok_iff :
      (response : EgressResponse)
      → (derive_outbound_request lib secret now payload context ≡ ok response)
        ↔ (IsAuthorized × (response ≡ outbound_response payload))
  derive_outbound_request-eq-ok_iff response = (
    λ e. proceed_sound _ response refl (sym proceed_lem ∙ e),
    λ (a, e). proceed_lem ∙ ap proceed a.listed ∙ proceed_complete response a e,
  )
