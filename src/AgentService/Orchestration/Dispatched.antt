-- ===== src/AgentService/Orchestration/Dispatched.antt =====
-- What the dispatcher lets through.
use user_delegated_auth_serv.Base.{
  ℕ, ◌+◌, String, ◌≡◌, refl, sym, ap, ◌∙◌, false, ◌||◌, Option, none, some, List, [], ◌∷◌, map,
  Result, ok, err, >>=-eq-ok, scope_materialization_error, arith, length, mem, mem-append, NoRepeat,
  NoRepeat-append, All, Bool-cases, inl, inr,
}
use mathlib.Core.List.{◌++◌ as append}
use user_delegated_auth_serv.WorkflowCore.Models.{ToolIntent, WorkflowStep, WorkflowPolicyDecision}
use user_delegated_auth_serv.WorkflowCore.Policy.{evaluate_workflow_policy}
use user_delegated_auth_serv.WorkflowCore.Validation.{
  new_workflow_step, new_tool_proposal, min_length_1, min_length_2, dedupe_sorted,
}
use user_delegated_auth_serv.WorkflowCore.Authz.{materialize_scopes_for_proposal}
use user_delegated_auth_serv.WorkflowCore.Catalog.{ToolAuthorizationSpec, get_tool_authorization}
use user_delegated_auth_serv.AgentService.Models.{PlanWorkflowRequest}
use user_delegated_auth_serv.AgentService.Orchestration.{
  DispatchResult, Progress, available_tool_names, is_denied, intent_material, normalize_tool_intent,
  normalized, normalized_by, step_from_intent, add_step, take_normalized, take_intent, take_intents,
  start, dispatch, proposal_of, step_of, server_of, requirements_for,
}

-- A step made of an intent: it has the catalogue's data for the intent's tool.
pub record IsStepOf (intent : ToolIntent) (step : WorkflowStep) : Type 0 where
  pub spec : ToolAuthorizationSpec
  pub listed : get_tool_authorization intent.tool_name ≡ ok spec
  pub action : step.action ≡ intent.tool_name
  pub target_agent : step.target_agent ≡ intent.agent_name
  pub audience : step.downstream_audience ≡ spec.downstream_audience
  pub operation : step.operation_type ≡ spec.op
  pub blast : step.blast_radius ≡ spec.blast_radius

-- The intent's server is the one that the catalogue has for its tool.
pub record IsPlaced (intent : ToolIntent) : Type 0 where
  pub spec : ToolAuthorizationSpec
  pub listed : get_tool_authorization intent.tool_name ≡ ok spec
  pub server : intent.mcp_server ≡ server_of spec.downstream_audience

-- The two lists go in step.
abbrev pub AllSteps : List ToolIntent → List WorkflowStep → Type 0
AllSteps [] [] = Unit
AllSteps (i ∷ is) (s ∷ ss) = IsStepOf i s × AllSteps is ss
AllSteps _ _ = ⊥

new_workflow_step-eq-ok :
    (s t : WorkflowStep)
    → new_workflow_step s ≡ ok t
    → (scopes : List String) × (t ≡ record s { required_scopes = scopes })
unfolding new_workflow_step
new_workflow_step-eq-ok s t e =
    let (u1, h1, e1) = >>=-eq-ok (min_length_1 s.step_id) _ e in
    let (u2, h2, e2) = >>=-eq-ok (min_length_1 s.target_agent) _ e1 in
    let (u3, h3, e3) = >>=-eq-ok (min_length_1 s.action) _ e2 in
    let (u4, h4, e4) = >>=-eq-ok (min_length_1 s.input_model_type) _ e3 in
    let (u5, h5, e5) = >>=-eq-ok (min_length_2 s.input_payload_json) _ e4 in
    let (scopes, h6, last) = >>=-eq-ok (dedupe_sorted s.required_scopes) _ e5 in (scopes, cc)

step_from_intent-IsStepOf :
    (index : ℕ) (intent : ToolIntent) (token_scopes : List String) (step : WorkflowStep)
    → step_from_intent index intent token_scopes ≡ ok step
    → IsStepOf intent step
unfolding step_from_intent
step_from_intent-IsStepOf index intent token_scopes step e =
    let (spec, listed, e1) = >>=-eq-ok (get_tool_authorization intent.tool_name) _ e in
    let (proposal, p, e2) = >>=-eq-ok (new_tool_proposal (proposal_of intent)) _ e1 in
    let (requirements, q, e3) = >>=-eq-ok (requirements_for intent.tool_name token_scopes) _ e2 in
    let (scopes, m, e4) = >>=-eq-ok (materialize_scopes_for_proposal proposal requirements) _ e3 in
    let (made, same) = new_workflow_step-eq-ok (step_of index intent spec scopes) step e4 in
    record {
      spec = spec;
      listed = listed;
      action = ap (λ t. t.action) same;
      target_agent = ap (λ t. t.target_agent) same;
      audience = ap (λ t. t.downstream_audience) same;
      operation = ap (λ t. t.operation_type) same;
      blast = ap (λ t. t.blast_radius) same;
    }

abbrev AllAllowed : Option (List String) → List ToolIntent → Type 0
AllAllowed allowed is = All (λ i. IsPlaced i × (is_denied allowed i.tool_name ≡ false)) is

AllSteps-append :
    (is : List ToolIntent) (ss : List WorkflowStep) (i : ToolIntent) (s : WorkflowStep)
    → AllSteps is ss
    → IsStepOf i s
    → AllSteps (append is (i ∷ [])) (append ss (s ∷ []))
AllSteps-append [] [] i s h k = (k, tt)
AllSteps-append (j ∷ is) (t ∷ ss) i s h k = (h.0, AllSteps-append is ss i s h.1 k)
AllSteps-append [] (t ∷ ss) i s h k = absurd h
AllSteps-append (j ∷ is) [] i s h k = absurd h

All-append :
    (allowed : Option (List String)) (is : List ToolIntent) (i : ToolIntent)
    → AllAllowed allowed is
    → IsPlaced i
    → is_denied allowed i.tool_name ≡ false
    → AllAllowed allowed (append is (i ∷ []))
All-append allowed [] i h p k = ((p, k), tt)
All-append allowed (j ∷ is) i h p k = (h.0, All-append allowed is i h.1 p k)

abbrev materials : List ToolIntent → List String
materials is = map intent_material is

materials-append :
    (is : List ToolIntent) (i : ToolIntent)
    → materials (append is (i ∷ [])) ≡ append (materials is) (intent_material i ∷ [])
materials-append [] i = refl
materials-append (j ∷ is) i = ap (λ rest. intent_material j ∷ rest) (materials-append is i)

-- The intents are of tools that the catalogue lists, at the catalogue's servers, and that the
-- session allows; no call stands twice among them; and the steps are made of them, one of each, in
-- their order.
pub record IsSound (allowed : Option (List String)) (intents : List ToolIntent)
    (steps : List WorkflowStep) : Type 0 where
  pub tools : AllAllowed allowed intents
  pub once : NoRepeat (materials intents)
  pub paired : AllSteps intents steps

record IsInvariant (allowed : Option (List String)) (p : Progress) : Type 0 where
  sound : IsSound allowed p.validated p.steps
  seen : (z : String) → mem z p.seen ≡ mem z (materials p.validated)

abbrev add_step_ok : Progress → ToolIntent → WorkflowStep → Progress
add_step_ok p intent step = record {
  validated = append p.validated (intent ∷ []);
  steps = append p.steps (step ∷ []);
  seen = intent_material intent ∷ p.seen;
}

add_step-IsInvariant :
    (allowed : Option (List String)) (p q : Progress) (intent : ToolIntent)
    (step : Result WorkflowStep)
    → IsInvariant allowed p
    → IsPlaced intent
    → is_denied allowed intent.tool_name ≡ false
    → mem (intent_material intent) p.seen ≡ false
    → ((s : WorkflowStep) → step ≡ ok s → IsStepOf intent s)
    → add_step p intent (intent_material intent) step ≡ ok q
    → IsInvariant allowed q
add_step-IsInvariant allowed p q intent (ok s) inv placed a n k e =
    let h : IsInvariant allowed (add_step_ok p intent s) = record {
      sound = record {
        tools = All-append allowed p.validated intent inv.sound.tools placed a;
        once =
            rw (materials-append p.validated intent)
              (NoRepeat-append (materials p.validated) _ inv.sound.once (sym (inv.seen _) ∙ n));
        paired = AllSteps-append p.validated p.steps intent s inv.sound.paired (k s refl);
      };
      seen = λ z.
          rw
            (
              materials-append p.validated intent,
              mem-append z (materials p.validated) (intent_material intent ∷ []),
              inv.seen z,
            )
            (ground arith);
    } in
    let same : add_step_ok p intent s ≡ q = cc in rw (sym same) h
add_step-IsInvariant allowed p q intent (err (scope_materialization_error text)) inv placed a n k
      e =
    let same : p ≡ q = cc in rw (sym same) inv
add_step-IsInvariant allowed p q intent (err x) inv placed a n k e = cc

normalized_by-eq-some :
    (intent out : ToolIntent) (r : Result ToolAuthorizationSpec)
    → get_tool_authorization intent.tool_name ≡ r
    → normalized_by intent r ≡ some out
    → IsPlaced out
normalized_by-eq-some intent out (err e) g h = cc
normalized_by-eq-some intent out (ok spec) g h =
    let same : normalized intent spec ≡ out = cc in
    rw (sym same) (record { spec = spec; listed = g; server = refl })

normalize_tool_intent-IsPlaced :
    (intent out : ToolIntent) → normalize_tool_intent intent ≡ some out → IsPlaced out
unfolding normalize_tool_intent
normalize_tool_intent-IsPlaced intent out h =
    elim (Bool-cases (mem intent.tool_name available_tool_names)) [
      | inl b ↦ normalized_by-eq-some intent out _ refl (rw b at h)
      | inr b ↦ absurd (ground arith)
    ]

take_normalized-IsInvariant :
    (allowed : Option (List String)) (token_scopes : List String) (p q : Progress)
    (o : Option ToolIntent)
    → IsInvariant allowed p
    → ((i : ToolIntent) → o ≡ some i → IsPlaced i)
    → take_normalized allowed token_scopes p o ≡ ok q
    → IsInvariant allowed q
take_normalized-IsInvariant allowed token_scopes p q none inv placed e =
    let same : p ≡ q = cc in rw (sym same) inv
take_normalized-IsInvariant allowed token_scopes p q (some i) inv placed e =
    elim (Bool-cases (is_denied allowed i.tool_name || mem (intent_material i) p.seen)) [
      | inl b ↦ (let same : p ≡ q = ground arith in rw (sym same) inv)
      | inr b ↦
          add_step-IsInvariant allowed p q i (step_from_intent (length p.steps + 1) i token_scopes)
            inv (placed i refl) (ground arith) (ground arith)
            (step_from_intent-IsStepOf (length p.steps + 1) i token_scopes) (rw b at e)
    ]

take_intents-IsInvariant :
    (allowed : Option (List String)) (token_scopes : List String) (p q : Progress)
    (intents : List ToolIntent)
    → IsInvariant allowed p
    → take_intents allowed token_scopes p intents ≡ ok q
    → IsInvariant allowed q
unfolding take_intents take_intent
take_intents-IsInvariant allowed token_scopes p q [] inv e =
    let same : p ≡ q = cc in rw (sym same) inv
take_intents-IsInvariant allowed token_scopes p q (i ∷ is) inv e =
    let (next, taken, rest) = >>=-eq-ok (take_intent allowed token_scopes p i) _ e in
    take_intents-IsInvariant allowed token_scopes next q is
      (take_normalized-IsInvariant allowed token_scopes p next _ inv
        (normalize_tool_intent-IsPlaced i) taken)
      rest

start-IsInvariant : (allowed : Option (List String)) → IsInvariant allowed start
start-IsInvariant allowed = record {
  sound = record { tools = tt; once = tt; paired = tt };
  seen = λ z. refl;
}

abbrev result_of : Progress → WorkflowPolicyDecision → DispatchResult
result_of p policy = record { tool_intents = p.validated; steps = p.steps; policy = policy }

-- Whatever intents a model proposes, those that the dispatcher keeps are of tools that the catalogue
-- lists and the session allows, each at the catalogue's server for it, with no call twice; and the
-- steps are made of them, one of each in their order, with the catalogue's audience, operation and
-- blast radius.
pub dispatch-IsSound :
    (request : PlanWorkflowRequest) (intents : List ToolIntent) (d : DispatchResult)
    → dispatch request intents ≡ ok d
    → IsSound request.allowed_tools d.tool_intents d.steps
unfolding dispatch
dispatch-IsSound request intents d e =
    let (p, taken, e1) =
      >>=-eq-ok (take_intents request.allowed_tools request.token_scopes start intents) _ e in
    let (policy, evaluated, last) = >>=-eq-ok (evaluate_workflow_policy p.steps) _ e1 in
    let inv =
      take_intents-IsInvariant request.allowed_tools request.token_scopes start p intents
        (start-IsInvariant request.allowed_tools) taken in
    let same : result_of p policy ≡ d = cc in rw (sym same) inv.sound
