-- ===== src/AgentService/Execution/Accepted.antt =====
-- The egress gateway accepts what the agent service sends for an approved step.
use user_delegated_auth_serv.Base.{
  ℕ, String, ◌≡◌, refl, sym, ◌∙◌, ap, true, false, some, List, ok, >>=-eq-ok, arith, Bool-cases,
  inl, inr, is_empty, mem, mem-sorted_set, sorted_set,
}
use user_delegated_auth_serv.Externals.{Digests}
use user_delegated_auth_serv.Json.{Fields, obj}
use user_delegated_auth_serv.Json.Equality.{IsDistinct, json_eq_refl}
use user_delegated_auth_serv.WorkflowCore.Models.{ExecutionGrant, ApprovedWorkflow, WorkflowStep}
use user_delegated_auth_serv.WorkflowCore.Validation.{
  new_execution_grant, min_length_1, opt_min_length_1, dedupe_sorted, validate_argument_names,
  require_non_empty_strings,
}
use user_delegated_auth_serv.WorkflowCore.Catalog.{ToolAuthorizationSpec, get_tool_authorization}
use user_delegated_auth_serv.WorkflowCore.Grants.{sign_execution_grant}
use user_delegated_auth_serv.WorkflowCore.Grants.Signing.{signature_of}
use user_delegated_auth_serv.TokenBroker.Models.{WorkflowTokenExchangeResponse}
use user_delegated_auth_serv.SessionState.InternalAuth.{TrustedSessionContext}
use user_delegated_auth_serv.EgressGateway.Models.{EgressRequest}
use user_delegated_auth_serv.EgressGateway.Authorization.{
  is_expired, is_absent, outbound_response, derive_outbound_request,
}
use user_delegated_auth_serv.EgressGateway.Authorization.Required.{Matches}
use user_delegated_auth_serv.EgressGateway.Authorization.Granted.{
  IsAuthorized, derive_outbound_request-eq-ok_iff,
}
use user_delegated_auth_serv.AgentService.Models.{WorkflowRecord}
use user_delegated_auth_serv.AgentService.Execution.{grant_of, body_of}

dedupe_sorted-eq-ok :
    (values scopes : List String) → dedupe_sorted values ≡ ok scopes → scopes ≡ sorted_set values
unfolding dedupe_sorted
dedupe_sorted-eq-ok values scopes e =
    let (u, h, last) = >>=-eq-ok (require_non_empty_strings values) _ e in cc

new_execution_grant-eq-ok :
    (g grant : ExecutionGrant)
    → new_execution_grant g ≡ ok grant
    → grant ≡ record g { required_scopes = sorted_set g.required_scopes }
unfolding new_execution_grant
new_execution_grant-eq-ok g grant e =
    let (u1, h1, e1) = >>=-eq-ok (min_length_1 g.workflow_id) _ e in
    let (u2, h2, e2) = >>=-eq-ok (min_length_1 g.approval_id) _ e1 in
    let (u3, h3, e3) = >>=-eq-ok (min_length_1 g.plan_hash) _ e2 in
    let (u4, h4, e4) = >>=-eq-ok (min_length_1 g.step_id) _ e3 in
    let (u5, h5, e5) = >>=-eq-ok (min_length_1 g.target_mcp) _ e4 in
    let (u6, h6, e6) = >>=-eq-ok (min_length_1 g.tool_name) _ e5 in
    let (u7, h7, e7) = >>=-eq-ok (validate_argument_names g.arguments) _ e6 in
    let (scopes, h8, e8) = >>=-eq-ok (dedupe_sorted g.required_scopes) _ e7 in
    let (u9, h9, e9) = >>=-eq-ok (opt_min_length_1 g.audience) _ e8 in
    let (v1, k1, f1) = >>=-eq-ok (min_length_1 g.user_id) _ e9 in
    let (v2, k2, f2) = >>=-eq-ok (min_length_1 g.session_id) _ f1 in
    let (v3, k3, f3) = >>=-eq-ok (opt_min_length_1 g.tenant_id) _ f2 in
    let (v4, k4, f4) = >>=-eq-ok (min_length_1 g.approved_by_user_id) _ f3 in
    let (v5, k5, f5) = >>=-eq-ok (min_length_1 g.correlation_id) _ f4 in
    let same : scopes ≡ sorted_set g.required_scopes =
      dedupe_sorted-eq-ok g.required_scopes scopes h8 in
    cc

sign_execution_grant-eq-ok :
    (lib : Digests) (grant : ExecutionGrant) (secret signature : String)
    → sign_execution_grant lib grant secret ≡ ok signature
    → (is_empty secret ≡ false) × (signature ≡ signature_of lib grant secret)
unfolding sign_execution_grant
sign_execution_grant-eq-ok lib grant secret signature e = elim (Bool-cases (is_empty secret)) [
  | inl b ↦ absurd (ground arith)
  | inr b ↦ (b, ground arith)
]

module _ (lib : Digests) (secret : String) (now : ℕ) (context : TrustedSessionContext)
    (workflow : WorkflowRecord) (approval : ApprovedWorkflow)
    (token : WorkflowTokenExchangeResponse) (step : WorkflowStep) (target : String)
    (arguments : Fields) where
  -- What the gateway finds when it checks a step that was sent in time, with a token that covers it:
  -- the session is the workflow's, the approval is live, the token has the step's scopes and an
  -- audience, and the step is at the catalogue's server for its tool.
  pub record IsReady : Type 0 where
    pub user : context.user_id ≡ workflow.user_id
    pub session : context.session_id ≡ workflow.session_id
    pub tenant : context.tenant_id ≡ workflow.tenant_id
    pub live : is_expired approval.expires_at now ≡ false
    pub scopes : (s : String) → mem s step.required_scopes ≡ true → mem s token.scopes ≡ true
    pub audience : is_absent token.audience ≡ false
    pub access_token : is_empty token.access_token ≡ false
    pub distinct : IsDistinct (obj arguments)
    pub spec : ToolAuthorizationSpec
    pub listed : get_tool_authorization step.action ≡ ok spec
    pub server : spec.downstream_audience ≡ some target

  abbrev the_grant : ExecutionGrant
  the_grant = record (grant_of workflow approval token step target arguments) {
    required_scopes = sorted_set step.required_scopes;
  }

  abbrev the_body : ExecutionGrant → String → EgressRequest
  the_body grant signature = body_of workflow approval token step target arguments grant signature

  body_of-Matches :
      (signature : String) → IsReady → Matches now (the_body the_grant signature) the_grant context
  body_of-Matches signature r = record {
    live = r.live;
    approval_id = refl;
    arguments = json_eq_refl (obj arguments) r.distinct;
    method = refl;
    primitive = refl;
    target_mcp = refl;
    tool_name = refl;
    workflow_id = refl;
    session_id = sym r.session;
    tenant_id = sym r.tenant;
    user_id = sym r.user;
    scopes = λ s m. r.scopes s (sym (mem-sorted_set s step.required_scopes) ∙ m);
    audience = r.audience;
    token_audience = refl;
  }

  target_of_server :
      (r : IsReady) (a : String)
      → (r.spec).downstream_audience ≡ some a
      → is_empty a ≡ false
      → target ≡ a
  target_of_server r a e n = let same : some target ≡ some a = sym r.server ∙ e in cc

  body_of-IsAuthorized :
      (signature : String)
      → IsReady
      → is_empty secret ≡ false
      → is_empty (signature_of lib the_grant secret) ≡ false
      → signature ≡ signature_of lib the_grant secret
      → IsAuthorized lib secret now (the_body the_grant signature) context
  body_of-IsAuthorized signature r secret_set signature_set same = record {
    spec = r.spec;
    listed = r.listed;
    target = target_of_server r;
    granted = record {
      token = r.access_token;
      grant = the_grant;
      present = refl;
      signed = record {
        secret_set = secret_set;
        signature_set = signature_set;
        same = ap some same;
      };
      matches = body_of-Matches signature r;
    };
  }

  -- The request that the agent service sends for a step of an approved workflow, with the grant and
  -- the signature that it makes for it, is let through by the gateway under the same secret, as long
  -- as the step is ready and digests are not empty: the session is the workflow's, the approval is
  -- live, the token has an audience and the step's scopes, the arguments have distinct keys, and the
  -- step is at the catalogue's server for its tool.
  pub derive_outbound_request-body_of :
      (grant : ExecutionGrant) (signature : String)
      → IsReady
      → ((text : String) → is_empty (lib.hmac_hexdigest secret text) ≡ false)
      → new_execution_grant (grant_of workflow approval token step target arguments) ≡ ok grant
      → sign_execution_grant lib grant secret ≡ ok signature
      → derive_outbound_request lib secret now (the_body grant signature) context
        ≡ ok (outbound_response (the_body grant signature))
  derive_outbound_request-body_of grant signature r digest_set made signed =
      let same : grant ≡ the_grant = new_execution_grant-eq-ok _ grant made in
      let (secret_set, digest) =
        sign_execution_grant-eq-ok lib the_grant secret signature (rw same at signed) in
      rw same (
        (derive_outbound_request-eq-ok_iff lib secret now (the_body the_grant signature) context
            (outbound_response (the_body the_grant signature))).1
          (body_of-IsAuthorized signature r secret_set (digest_set _) digest, refl))
