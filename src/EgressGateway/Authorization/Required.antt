-- ===== src/EgressGateway/Authorization/Required.antt =====
-- What the checks of a grant against a request come to.
use user_delegated_auth_serv.Base.{
  ℕ, String, ◌≡◌, refl, ap, sym, ◌↔◌, Bool, true, false, not, some, List, [], ◌∷◌, Result, ok,
  guard, arith, All, mem, keep, opt_eq, opt_eq_iff, ◌==◌, eq_iff, guard-eq-ok, guard-ok,
  not-eq-true, in_order, in_order_iff, ◌∙◌, sorted, sorted-eq-nil, sorted_set, sorted_set-eq-nil,
  mem-keep, keep-eq-nil,
}
use user_delegated_auth_serv.Json.{obj}
use user_delegated_auth_serv.Json.Equality.{json_eq}
use user_delegated_auth_serv.WorkflowCore.Models.{Primitive, Method, ExecutionGrant}
use user_delegated_auth_serv.WorkflowCore.Grants.{primitive_text, method_text}
use user_delegated_auth_serv.SessionState.InternalAuth.{TrustedSessionContext}
use user_delegated_auth_serv.EgressGateway.Models.{EgressRequest}
use user_delegated_auth_serv.EgressGateway.Authorization.{
  mismatches, none_of, is_expired, is_absent, request_comparison, context_comparison,
  missing_scopes, no_missing, forbid, assert_grant_matches_request,
}

-- The grant is for this very request, session and token, and has not run out.
pub record Matches (now : ℕ) (payload : EgressRequest) (grant : ExecutionGrant)
    (context : TrustedSessionContext) : Type 0 where
  pub live : is_expired grant.expires_at now ≡ false
  pub approval_id : payload.approval_id ≡ some grant.approval_id
  pub arguments : json_eq (obj grant.arguments) (obj payload.arguments) ≡ true
  pub method : grant.method ≡ payload.method
  pub primitive : grant.primitive ≡ payload.primitive
  pub target_mcp : grant.target_mcp ≡ payload.target_mcp
  pub tool_name : grant.tool_name ≡ payload.tool_name
  pub workflow_id : grant.workflow_id ≡ payload.workflow_id
  pub session_id : grant.session_id ≡ context.session_id
  pub tenant_id : grant.tenant_id ≡ context.tenant_id
  pub user_id : grant.user_id ≡ context.user_id
  pub scopes : (s : String) → mem s grant.required_scopes ≡ true → mem s payload.token_scopes ≡ true
  pub audience : is_absent grant.audience ≡ false
  pub token_audience : payload.token_audience ≡ grant.audience

abbrev AllEqual : List (String × Bool) → Type 0
AllEqual l = All (λ p. p.1 ≡ true) l

mismatches-eq-nil_iff : (l : List (String × Bool)) → (mismatches l ≡ []) ↔ AllEqual l
unfolding mismatches
mismatches-eq-nil_iff [] = (λ _. tt, λ _. refl)
mismatches-eq-nil_iff ((k, true) ∷ l) =
    let ih = mismatches-eq-nil_iff l in (λ e. (refl, ih.0 e), λ h. ih.1 h.1)
mismatches-eq-nil_iff ((k, false) ∷ l) = (λ e. cc, λ h. cc (h.0))

method_eq : (a b : Method) → (method_text a == method_text b) ≡ true → a ≡ b
method_eq Method.get Method.get h = refl
method_eq Method.post Method.post h = refl
method_eq a b h = cc

primitive_eq : (a b : Primitive) → (primitive_text a == primitive_text b) ≡ true → a ≡ b
primitive_eq Primitive.discovery Primitive.discovery h = refl
primitive_eq Primitive.read Primitive.read h = refl
primitive_eq Primitive.execute Primitive.execute h = refl
primitive_eq Primitive.mutation Primitive.mutation h = refl
primitive_eq a b h = cc

module _ (payload : EgressRequest) (grant : ExecutionGrant) where
  abbrev Covered : Type 0
  Covered = (s : String) → mem s grant.required_scopes ≡ true → mem s payload.token_scopes ≡ true

  scopes_of_none_missing : missing_scopes grant payload ≡ [] → Covered
  unfolding missing_scopes
  scopes_of_none_missing h s m =
      let p : String → Bool = λ scope. not (mem scope payload.token_scopes) in
      let empty = sorted_set-eq-nil (keep p grant.required_scopes) h in
      ground (arith, mem-keep p s grant.required_scopes, empty)

  none_missing_of_scopes : Covered → missing_scopes grant payload ≡ []
  unfolding missing_scopes
  none_missing_of_scopes h =
      ap sorted_set (keep-eq-nil _ grant.required_scopes (λ s m. ap not (h s m)))

no_missing_iff : (xs : List String) → (no_missing xs ≡ ok tt) ↔ (xs ≡ [])
no_missing_iff [] = (λ h. refl, λ h. refl)
no_missing_iff (x ∷ xs) = (λ h. cc, λ h. cc)

none_of_iff : (detail : String) (xs : List String) → (none_of detail xs ≡ ok tt) ↔ (xs ≡ [])
none_of_iff detail [] = (λ h. refl, λ h. refl)
none_of_iff detail (x ∷ xs) = (λ h. cc, λ h. cc)

sorted_of_nil : (xs : List String) → xs ≡ [] → sorted xs ≡ []
unfolding sorted
sorted_of_nil xs h = ap sorted h

module _ (now : ℕ) (payload : EgressRequest) (grant : ExecutionGrant)
    (context : TrustedSessionContext) where
  abbrev grant_checks : List (Result (Unit {0}))
  grant_checks =
      guard (not (is_expired grant.expires_at now)) (forbid "execution grant has expired")
      ∷ none_of "execution grant does not match request: "
          (sorted (mismatches (request_comparison payload grant)))
      ∷ none_of "execution grant does not match trusted session context: "
          (mismatches (context_comparison grant context))
      ∷ no_missing (missing_scopes grant payload)
      ∷ guard (not (is_absent grant.audience)) (forbid "execution grant audience is required")
      ∷ guard (opt_eq payload.token_audience grant.audience)
          (forbid "access token audience does not match execution grant")
      ∷ []

  assert_lem : assert_grant_matches_request now payload grant context ≡ in_order grant_checks
  unfolding assert_grant_matches_request
  assert_lem = refl

  assert_sound :
      assert_grant_matches_request now payload grant context ≡ ok tt
      → Matches now payload grant context
  assert_sound e =
      let (live, (request, (session, (scopes, (audience, (token, _)))))) =
        (in_order_iff grant_checks).0 (sym assert_lem ∙ e) in
      let (
        approval_id,
        (arguments, (method, (primitive, (target_mcp, (tool_name, (workflow_id, _)))))),
      ) =
        (mismatches-eq-nil_iff (request_comparison payload grant)).0
          (sorted-eq-nil _ ((none_of_iff _ _).0 request)) in
      let (session_id, (tenant_id, (user_id, _))) =
        (mismatches-eq-nil_iff (context_comparison grant context)).0
          ((none_of_iff _ _).0 session) in
      record {
        live = not-eq-true _ (guard-eq-ok _ _ live);
        approval_id = (opt_eq_iff _ _).0 approval_id;
        arguments = arguments;
        method = method_eq _ _ method;
        primitive = primitive_eq _ _ primitive;
        target_mcp = (eq_iff _ _).0 target_mcp;
        tool_name = (eq_iff _ _).0 tool_name;
        workflow_id = (eq_iff _ _).0 workflow_id;
        session_id = (eq_iff _ _).0 session_id;
        tenant_id = (opt_eq_iff _ _).0 tenant_id;
        user_id = (eq_iff _ _).0 user_id;
        scopes = scopes_of_none_missing payload grant ((no_missing_iff _).0 scopes);
        audience = not-eq-true _ (guard-eq-ok _ _ audience);
        token_audience = (opt_eq_iff _ _).0 (guard-eq-ok _ _ token);
      }

  assert_complete :
      Matches now payload grant context
      → assert_grant_matches_request now payload grant context ≡ ok tt
  assert_complete m =
      assert_lem
      ∙ (in_order_iff grant_checks).1 (
        guard-ok _ _ (ap not m.live),
        (
          (none_of_iff _ _).1 (
              sorted_of_nil _ (
                (mismatches-eq-nil_iff (request_comparison payload grant)).1 (
                  (opt_eq_iff _ _).1 m.approval_id,
                  (
                    m.arguments,
                    (
                      (eq_iff _ _).1 (ap method_text m.method),
                      (
                        (eq_iff _ _).1 (ap primitive_text m.primitive),
                        (
                          (eq_iff _ _).1 m.target_mcp,
                          ((eq_iff _ _).1 m.tool_name, ((eq_iff _ _).1 m.workflow_id, tt)),
                        ),
                      ),
                    ),
                  ),
                ))),
          (
            (none_of_iff _ _).1 (
                (mismatches-eq-nil_iff (context_comparison grant context)).1 (
                  (eq_iff _ _).1 m.session_id,
                  ((opt_eq_iff _ _).1 m.tenant_id, ((eq_iff _ _).1 m.user_id, tt)),
                )),
            (
              (no_missing_iff _).1 (none_missing_of_scopes payload grant m.scopes),
              (
                guard-ok _ _ (ap not m.audience),
                (guard-ok _ _ ((opt_eq_iff _ _).1 m.token_audience), tt),
              ),
            ),
          ),
        ),
      )

  pub assert_grant_matches_request-eq-ok_iff :
      (assert_grant_matches_request now payload grant context ≡ ok tt)
      ↔ Matches now payload grant context
  assert_grant_matches_request-eq-ok_iff = (assert_sound, assert_complete)
