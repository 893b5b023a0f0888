-- ===== src/AgentService/Store.antt =====
-- services/agent_service/agent_service/state.py: the process-local store.
pub mod Isolation
use Prim.Native.String.{◌++◌, []}
use user_delegated_auth_serv.Base.{
  ℕ, zero, suc, String, ◌≡◌, refl, ◌↔◌, Bool, true, false, ◌&&◌, Option, none, some, List, [], ◌∷◌,
  arith, Eq, Table, lookup, insert, ◌==◌, eq_iff, opt_eq, opt_eq_iff, is_empty, if◌then◌else◌,
}
use user_delegated_auth_serv.Externals.{Digests}
use user_delegated_auth_serv.Json.Dumps.{join}
use user_delegated_auth_serv.AgentService.Models.{
  PlanWorkflowRequest, SessionRecord, TokenRegistryRecord, WorkflowRecord, ThreadRecord,
}

pub record SessionScope : Type 0 where
  pub user_id : String
  pub session_id : String
  pub tenant_id : Option String

-- `(tenant_id, user_id, session_id, item_id)`
pub record Identity : Type 0 where
  pub tenant_id : Option String
  pub user_id : String
  pub session_id : String
  pub item_id : String

abbrev same_scope : SessionScope → SessionScope → Bool
same_scope a b =
    a.user_id == b.user_id && a.session_id == b.session_id && opt_eq a.tenant_id b.tenant_id

pub same_scope_iff : (a b : SessionScope) → (same_scope a b ≡ true) ↔ (a ≡ b)
same_scope_iff a b = ground (
  arith,
  eq_iff a.user_id b.user_id,
  eq_iff a.session_id b.session_id,
  opt_eq_iff a.tenant_id b.tenant_id,
)

abbrev pub same_identity : Identity → Identity → Bool
same_identity a b =
    opt_eq a.tenant_id b.tenant_id
    && a.user_id == b.user_id
    && a.session_id == b.session_id
    && a.item_id == b.item_id

pub same_identity_iff : (a b : Identity) → (same_identity a b ≡ true) ↔ (a ≡ b)
same_identity_iff a b = ground (
  arith,
  eq_iff a.user_id b.user_id,
  eq_iff a.session_id b.session_id,
  eq_iff a.item_id b.item_id,
  opt_eq_iff a.tenant_id b.tenant_id,
)

instance abbrev pub scope_eq : Eq SessionScope
scope_eq = record { beq = same_scope; beq_iff = same_scope_iff }

instance abbrev pub identity_eq : Eq Identity
identity_eq = record { beq = same_identity; beq_iff = same_identity_iff }

pub record Store : Type 0 where
  pub sessions : Table SessionScope SessionRecord
  pub workflows : Table Identity WorkflowRecord
  pub tokens : Table Identity TokenRegistryRecord
  pub threads : Table Identity ThreadRecord

abbrev pub empty : Store
empty = record { sessions = []; workflows = []; tokens = []; threads = [] }

abbrev pub session_scope : SessionRecord → SessionScope
session_scope r = record { user_id = r.user_id; session_id = r.session_id; tenant_id = r.tenant_id }

abbrev pub workflow_identity : WorkflowRecord → Identity
workflow_identity r = record {
  tenant_id = r.tenant_id;
  user_id = r.user_id;
  session_id = r.session_id;
  item_id = r.workflow_id;
}

abbrev pub token_identity : TokenRegistryRecord → Identity
token_identity r = record {
  tenant_id = r.tenant_id;
  user_id = r.user_id;
  session_id = r.session_id;
  item_id = r.token_ref;
}

abbrev pub thread_identity : ThreadRecord → Identity
thread_identity r = record {
  tenant_id = r.tenant_id;
  user_id = r.user_id;
  session_id = r.session_id;
  item_id = r.thread_id;
}

-- `text[:n]`
unfoldable pub prefix : ℕ → String → String
prefix zero s = []
prefix (suc n) [] = []
prefix (suc n) (String.◌∷◌ c s) = String.◌∷◌ c (prefix n s)

-- `value and …` of `str | None`: the text, unless it is missing or empty.
abbrev pub present : Option String → Option String
present none = none
present (some s) = if is_empty s then none else some s

abbrev pub or_empty : Option String → String
or_empty none = ""
or_empty (some s) = s

module _ (lib : Digests) where
  unfoldable pub make_token_ref : String → String → Option String → String → String
  unfolding prefix join
  make_token_ref user_id session_id tenant_id auth_context_ref =
      "token:"
      ++ prefix 24 (
          lib.sha256_hexdigest
            (join "\u{1f}" (or_empty tenant_id ∷ user_id ∷ session_id ∷ auth_context_ref ∷ [])))

  abbrev made_token_ref : PlanWorkflowRequest → Option String → Option String
  made_token_ref request none = none
  made_token_ref request (some auth_context_ref) =
      some (make_token_ref request.user_id request.session_id request.tenant_id auth_context_ref)

  unfoldable pub token_ref_for_request : PlanWorkflowRequest → Option String
  unfolding make_token_ref
  token_ref_for_request request = elim (present request.token_ref) [
    | some token_ref ↦ some token_ref
    | none ↦ made_token_ref request (present request.auth_context_ref)
  ]

  unfoldable pub session_record_for_request : ℕ → PlanWorkflowRequest → SessionRecord
  unfolding token_ref_for_request
  session_record_for_request now request = record {
    user_id = request.user_id;
    session_id = request.session_id;
    token_ref = token_ref_for_request request;
    auth_context_ref = request.auth_context_ref;
    token_scopes = request.token_scopes;
    allowed_tools = request.allowed_tools;
    tenant_id = request.tenant_id;
    updated_at = now;
  }

unfoldable pub register_auth_context : TokenRegistryRecord → Store → Store
unfolding insert
register_auth_context r s = record s { tokens = insert (token_identity r) r s.tokens }

unfoldable pub save_workflow : WorkflowRecord → Store → Store
unfolding insert
save_workflow r s = record s { workflows = insert (workflow_identity r) r s.workflows }

unfoldable pub get_workflow :
    Store → String → String → String → Option String → Option WorkflowRecord
unfolding lookup
get_workflow s workflow_id user_id session_id tenant_id =
    lookup
      (record {
        tenant_id = tenant_id;
        user_id = user_id;
        session_id = session_id;
        item_id = workflow_id;
      })
      s.workflows

abbrev pub context_ref : Option TokenRegistryRecord → Option String
context_ref none = none
context_ref (some r) = some r.auth_context_ref

unfoldable pub get_auth_context : Store → String → String → String → Option String → Option String
unfolding lookup
get_auth_context s user_id session_id token_ref tenant_id = context_ref (
    lookup
      (record {
        tenant_id = tenant_id;
        user_id = user_id;
        session_id = session_id;
        item_id = token_ref;
      })
      s.tokens)

unfoldable pub save_thread : ThreadRecord → Store → Store
unfolding insert
save_thread r s = record s { threads = insert (thread_identity r) r s.threads }

unfoldable pub get_thread : Store → String → String → String → Option String → Option ThreadRecord
unfolding lookup
get_thread s thread_id user_id session_id tenant_id =
    lookup
      (record {
        tenant_id = tenant_id;
        user_id = user_id;
        session_id = session_id;
        item_id = thread_id;
      })
      s.threads

abbrev pub registered : ℕ → SessionRecord → Option String → Option String → Store → Store
registered now r (some auth_context_ref) (some token_ref) s =
    register_auth_context
      (record {
        user_id = r.user_id;
        session_id = r.session_id;
        tenant_id = r.tenant_id;
        token_ref = token_ref;
        auth_context_ref = auth_context_ref;
        updated_at = now;
      })
      s
registered now r _ _ s = s

unfoldable pub upsert_session : Digests → ℕ → PlanWorkflowRequest → Store → SessionRecord × Store
unfolding session_record_for_request register_auth_context insert
upsert_session lib now request s =
    let r = session_record_for_request lib now request in
    (
      r,
      registered now r (present r.auth_context_ref) (present r.token_ref)
          (record s { sessions = insert (session_scope r) r s.sessions }),
    )
