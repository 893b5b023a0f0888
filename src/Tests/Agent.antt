-- ===== src/Tests/Agent.antt =====
-- Tests of the agent service's store, payloads and approvals.
use user_delegated_auth_serv.Base.{
  decimal, List, refl, ℕ, ◌≡◌, sym, ◌∙◌, ap, ◌⊎◌, true, [], ◌∷◌, ok, none, some,
}
use user_delegated_auth_serv.Json.{str, obj, Fields, end, field}
use user_delegated_auth_serv.WorkflowCore.Models.{
  OperationType, BlastRadius, ExecutionGrant, ApprovedWorkflow,
}
use user_delegated_auth_serv.WorkflowCore.Validation.{new_execution_grant}
use user_delegated_auth_serv.WorkflowCore.Catalog.{ToolAuthorizationSpec, get_tool_authorization}
use user_delegated_auth_serv.WorkflowCore.Grants.{sign_execution_grant}
use user_delegated_auth_serv.TokenBroker.Models.{WorkflowTokenExchangeResponse}
use user_delegated_auth_serv.EgressGateway.Authorization.{
  derive_outbound_request, outbound_response,
}
use user_delegated_auth_serv.AgentService.Execution.{grant_of, body_of}
use user_delegated_auth_serv.AgentService.Execution.Accepted.{
  IsReady, derive_outbound_request-body_of,
}
use user_delegated_auth_serv.SessionState.InternalAuth.{TrustedSessionContext}
use user_delegated_auth_serv.SessionState.InternalAuth.Verified.{verify_session_context-eq-ok_iff}
use user_delegated_auth_serv.AgentService.Models.{
  WorkflowRecord, WorkflowStatus, ThreadRecord, TokenRegistryRecord, WorkflowApprovalRequest,
  TokenContextRegistrationRequest, ThreadCreateRequest,
}
use user_delegated_auth_serv.AgentService.Store.{
  Store, Identity, empty, save_workflow, get_workflow, get_thread, register_auth_context,
  workflow_identity, thread_identity,
}
use user_delegated_auth_serv.AgentService.Store.Isolation.{
  IsReachable, Step, IsWellKeyed, IsReachable-IsWellKeyed, get-identity,
}
use user_delegated_auth_serv.AgentService.History.{IsTold, apply_all-IsTold}
use user_delegated_auth_serv.AgentService.RedisStore.Runs.{Operation, apply_all}
use user_delegated_auth_serv.AgentService.World.{World, Outside}
use user_delegated_auth_serv.AgentService.Registration.{
  IsRegistered, register_token_context, register_token_context-IsRegistered,
}
use user_delegated_auth_serv.AgentService.Threads.{
  IsCreated, create_thread, create_thread-IsCreated,
}
use user_delegated_auth_serv.AgentService.Approval.{approve_workflow}
use user_delegated_auth_serv.AgentService.Approval.Settled.{IsQuiet}
use user_delegated_auth_serv.AgentService.Approval.Gate.{IsGated, approve_workflow-IsGated}
use user_delegated_auth_serv.AgentService.Approval.Once.{
  Headers, AreSameSession, scope_of, approve_workflow-once,
}
use user_delegated_auth_serv.Tests.Data.{
  plan_request, value_or, context, digests, codec, env, auth0, restart_step, restart_intent,
  vm_arguments,
}

abbrev pub open_workflow : WorkflowRecord
open_workflow = record {
  workflow_id = "wf-1";
  thread_id = none;
  session_id = "session-1";
  user_id = "user-1";
  tenant_id = some "acme";
  status = WorkflowStatus.awaiting_approval;
  proposal = record {
    workflow_id = "wf-1";
    user_id = "user-1";
    session_id = "session-1";
    tenant_id = some "acme";
    created_at = 1;
    steps = restart_step ∷ [];
  };
  plan_hash = "sha256:sha";
  tool_intents = restart_intent ∷ [];
  policy = record {
    requires_hitl = true;
    blast_radius = BlastRadius.medium;
    human_description = "Restart selected virtual machine";
    required_scopes = "write:vm:vm-7" ∷ [];
    denied_reason = none;
  };
  token_ref = some "token:1";
  approved_workflow = none;
  egress_results = [];
  created_at = 1;
}

abbrev pub some_thread : ThreadRecord
some_thread = record {
  thread_id = "thread-1";
  user_id = "user-1";
  session_id = "session-1";
  tenant_id = some "acme";
  messages = [];
  state = end;
  title = none;
  token_ref = none;
  active_workflow_id = none;
  created_at = 1;
  updated_at = 1;
}

abbrev pub some_token : TokenRegistryRecord
some_token = record {
  user_id = "user-1";
  session_id = "session-1";
  tenant_id = some "acme";
  token_ref = "token:1";
  auth_context_ref = "credential";
  updated_at = 1;
}

abbrev workflow_id : Identity
workflow_id = workflow_identity open_workflow

abbrev other_tenant : Identity
other_tenant = record workflow_id { tenant_id = none }

abbrev stored : Store
stored = save_workflow open_workflow (register_auth_context some_token empty)

stored-IsReachable : IsReachable digests stored
stored-IsReachable =
    IsReachable.after
      (IsReachable.after IsReachable.at_start (Step.registered_context some_token empty))
      (Step.saved_workflow open_workflow (register_auth_context some_token empty))

identity_example :
    ((r : WorkflowRecord)
      → get_workflow stored "wf-1" "user-1" "session-1" (some "acme") ≡ some r
      → workflow_identity r ≡ workflow_id)
    × ((r : ThreadRecord)
        → get_thread stored "wf-1" "user-1" "session-1" (some "acme") ≡ some r
        → thread_identity r ≡ workflow_id)
identity_example = get-identity digests stored workflow_id stored-IsReachable

abbrev calls : List Operation
calls =
    Operation.save_workflow open_workflow
    ∷ Operation.upsert_session 3 plan_request
    ∷ Operation.register_auth_context some_token
    ∷ Operation.save_thread some_thread
    ∷ []

apply_all_example :
    IsTold "wf-1" "user-1" "session-1"
      (some "acme")
      digests
      calls
      empty
      (apply_all digests calls empty)
apply_all_example = apply_all-IsTold "wf-1" "user-1" "session-1" (some "acme") digests calls empty

abbrev browser_state : Fields
browser_state = field "token_ref" (str "token:2") (field "user_id" (str "user-2") end)

abbrev pub outside : Outside
outside = record {
  lib = digests;
  codec = codec;
  env = env;
  auth0 = auth0;
  clock = λ n. n;
  isoformat = λ t. decimal t;
  uuid4_hex = "1";
  parse_float = λ s. ok tt;
  loads = λ s. ok (obj vm_arguments);
  answer = λ post. ok end;
}

abbrev pub world : World
world = record { store = stored; readings = 0; exchanges = []; posts = [] }

abbrev headers : Headers outside
headers = (some "bctx", some "hmac")

abbrev approval : WorkflowApprovalRequest
approval = record { approved = true; plan_hash = "sha256:sha" }

world-IsWellKeyed : IsWellKeyed stored
world-IsWellKeyed = IsReachable-IsWellKeyed digests stored stored-IsReachable

approve_workflow_example :
    IsGated outside "wf-1"
      (some "bctx")
      (some "hmac")
      approval
      world
      (approve_workflow outside "wf-1" (some "bctx") (some "hmac") approval world)
approve_workflow_example =
    approve_workflow-IsGated outside "wf-1" (some "bctx") (some "hmac") approval world
      world-IsWellKeyed

context_of :
    (now : ℕ) (c : TrustedSessionContext)
    → user_delegated_auth_serv.SessionState.InternalAuth.verify_session_context digests codec now
        (some "bctx")
        (some "hmac")
        "secret"
      ≡ ok c
    → c ≡ context
context_of now c e =
    let parses =
      ((verify_session_context-eq-ok_iff digests codec now "secret" c (some "bctx") (some "hmac")).0
        e).parses in
    cc

headers_same : AreSameSession outside headers headers
unfolding user_delegated_auth_serv.EgressGateway.Handler.internal_auth_secret
headers_same now later c d e f =
    ap scope_of (context_of now c e) ∙ sym (ap scope_of (context_of later d f))

approve_twice_example :
    IsQuiet world ((approve_workflow outside "wf-1" (some "bctx") (some "hmac") approval world).1)
    ⊎ IsQuiet ((approve_workflow outside "wf-1" (some "bctx") (some "hmac") approval world).1) (
        (approve_workflow outside "wf-1"
          (some "bctx")
          (some "hmac")
          approval
          ((approve_workflow outside "wf-1" (some "bctx") (some "hmac") approval world).1)).1)
approve_twice_example =
    approve_workflow-once outside "wf-1" headers headers approval approval world headers_same
      world-IsWellKeyed

abbrev approved : ApprovedWorkflow
approved = record {
  workflow_id = "wf-1";
  approval_id = "approval-1";
  plan_hash = "sha256:sha";
  approved_at = 1;
  approved_by_user_id = "user-1";
  approved_scopes = "write:vm:vm-7" ∷ [];
  expires_at = some 9000;
}

abbrev obo_token : WorkflowTokenExchangeResponse
obo_token = record {
  access_token = "token";
  expires_at = 9000;
  scopes = "write:vm:vm-7" ∷ [];
  audience = some "cloud-api";
}

abbrev made_grant : ExecutionGrant
made_grant = grant_of open_workflow approved obo_token restart_step "cloud-mcp" vm_arguments

made_grant_lem : new_execution_grant made_grant ≡ ok made_grant
unfolding new_execution_grant user_delegated_auth_serv.Json.keys
made_grant_lem = refl

signed_grant_lem : sign_execution_grant digests made_grant "secret" ≡ ok "hmac"
unfolding sign_execution_grant
signed_grant_lem = refl

abbrev no_spec : ToolAuthorizationSpec
no_spec = record {
  tool_name = "";
  auth0_scope_candidates = [];
  workflow_scope_templates = [];
  scope_args = [];
  op = OperationType.read;
  hitl_description = "";
  blast_radius = BlastRadius.none;
  downstream_audience = none;
}

restart-IsReady :
    IsReady digests "secret" 100 context open_workflow approved obo_token restart_step "cloud-mcp"
      vm_arguments
unfolding get_tool_authorization user_delegated_auth_serv.Json.Equality.IsDistinct
    user_delegated_auth_serv.Json.keys
restart-IsReady = record {
  user = refl;
  session = refl;
  tenant = refl;
  live = refl;
  scopes = λ s m. m;
  audience = refl;
  access_token = refl;
  distinct = (refl, tt, tt);
  spec = value_or no_spec (get_tool_authorization "restart_vm");
  listed = refl;
  server = refl;
}

accepted_example :
    derive_outbound_request digests "secret" 100
      (body_of open_workflow approved obo_token restart_step "cloud-mcp" vm_arguments made_grant
        "hmac")
      context
    ≡ ok (
        outbound_response (
          body_of open_workflow approved obo_token restart_step "cloud-mcp" vm_arguments made_grant
            "hmac"))
accepted_example =
    derive_outbound_request-body_of digests "secret" 100 context open_workflow approved obo_token
      restart_step "cloud-mcp" vm_arguments made_grant "hmac" restart-IsReady (λ text. refl)
      made_grant_lem signed_grant_lem

abbrev credential : TokenContextRegistrationRequest
credential = record { token_ref = "token:1"; auth_context_ref = "credential" }

register_token_context_example :
    (((register_token_context outside (some "bctx") (some "hmac") credential world).1).store
      ≡ world.store)
    ⊎ IsRegistered outside
        (some "bctx")
        (some "hmac")
        credential
        world
        (register_token_context outside (some "bctx") (some "hmac") credential world)
register_token_context_example =
    register_token_context-IsRegistered outside (some "bctx") (some "hmac") credential world

abbrev thread_request : ThreadCreateRequest
thread_request = record {
  thread_id = none;
  user_id = "user-2";
  session_id = "session-2";
  tenant_id = none;
  token_ref = some "token:2";
  auth_context_ref = some "stolen";
  token_scopes = [];
  allowed_tools = none;
  title = none;
  messages = [];
  state = browser_state;
}

create_thread_example :
    (((create_thread outside (some "bctx") (some "hmac") thread_request world).1).store
      ≡ world.store)
    ⊎ IsCreated outside
        (some "bctx")
        (some "hmac")
        thread_request
        world
        (create_thread outside (some "bctx") (some "hmac") thread_request world)
create_thread_example =
    create_thread-IsCreated outside (some "bctx") (some "hmac") thread_request world
