-- ===== src/Tests/Stores.antt =====
-- The two stores of the agent service over a short run, with a codec that knows its records.
use user_delegated_auth_serv.Base.{
  String, ◌≡◌, refl, none, some, List, [], ◌∷◌, ok, err, value_error, ◌≢◌, eq_iff,
}
use user_delegated_auth_serv.Json.{end}
use user_delegated_auth_serv.AgentService.Models.{PlanWorkflowRequest}
use user_delegated_auth_serv.AgentService.Store as Memory
use user_delegated_auth_serv.AgentService.Store.{token_ref_for_request}
use user_delegated_auth_serv.AgentService.RedisStore.{JsonModels, RedisSettings}
use user_delegated_auth_serv.AgentService.RedisStore.Refinement.{Agrees}
use user_delegated_auth_serv.AgentService.RedisStore.Runs.{
  Operation, save_workflow, save_thread, upsert_session, apply_all, remote_apply_all, empty-Agrees,
  remote_apply_all-Agrees,
}
use user_delegated_auth_serv.Tests.Data.{digests}
use user_delegated_auth_serv.Tests.Agent.{open_workflow, some_thread, some_token}
use user_delegated_auth_serv.Tests.Sessions.{Database, database, database-IsDatabase}

abbrev models : JsonModels
models = record {
  sessions = record {
    model_dump_json = λ r. "session";
    model_validate_json = λ s. err (value_error s);
  };
  workflows = record {
    model_dump_json = λ r. "workflow";
    model_validate_json = λ s. ok open_workflow;
  };
  tokens = record { model_dump_json = λ r. "token"; model_validate_json = λ s. ok some_token };
  threads = record { model_dump_json = λ r. "thread"; model_validate_json = λ s. ok some_thread };
}

abbrev settings : RedisSettings
settings = record { key_prefix = "agent_service:v1"; ttl_seconds = none }

abbrev request : PlanWorkflowRequest
request = record {
  query = "restart vm-7";
  user_id = "user-1";
  session_id = "session-1";
  thread_id = none;
  auth_context_ref = some some_token.auth_context_ref;
  token_ref = some some_token.token_ref;
  token_scopes = [];
  allowed_tools = none;
  tenant_id = some "acme";
  messages = [];
  state = end;
}

abbrev operations : List Operation
operations =
    upsert_session some_token.updated_at request
    ∷ save_workflow open_workflow
    ∷ save_thread some_thread
    ∷ []

abbrev fresh : Database
fresh key = none

acme_is_named : ◌≢◌ {A = String} "acme" "_"
acme_is_named e = cc ((eq_iff "acme" "_").1 e)

remote_apply_all-Agrees_example :
    (d' : Database) × (remote_apply_all digests database models settings operations fresh ≡ ok d')
    × Agrees database models settings database-IsDatabase d'
        (apply_all digests operations Memory.empty)
unfolding Memory.session_record_for_request
remote_apply_all-Agrees_example =
    remote_apply_all-Agrees digests database models settings database-IsDatabase refl operations
      fresh Memory.empty
      (
        (refl, (refl, acme_is_named), refl, refl),
        (
          (refl, ((refl, acme_is_named), refl, refl, refl)),
          ((refl, ((refl, acme_is_named), refl, refl, refl)), tt),
        ),
      )
      (empty-Agrees digests database models settings database-IsDatabase refl fresh (λ key. refl))
