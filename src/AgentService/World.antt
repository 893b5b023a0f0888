-- ===== src/AgentService/World.antt =====
-- What the agent service's handlers act on: the process-local store, the clock, and the requests that
-- they have sent. An action returns a value or raises, and leaves a state of these.
use user_delegated_auth_serv.Base.{
  ℕ, ◌+◌, String, Option, none, some, List, Result, ok, err, Exception,
}
use user_delegated_auth_serv.Externals.{Digests}
use user_delegated_auth_serv.Json.{Json, str, obj, Fields, put}
use user_delegated_auth_serv.TokenBroker.Models.{WorkflowTokenExchangeRequest}
use user_delegated_auth_serv.TokenBroker.Exchange.{Auth0}
use user_delegated_auth_serv.SessionState.InternalAuth.{ContextCodec}
use user_delegated_auth_serv.EgressGateway.Models.{EgressRequest}
use user_delegated_auth_serv.EgressGateway.Handler.{Env}
use user_delegated_auth_serv.AgentService.Models.{WorkflowRecord, ThreadRecord}
use user_delegated_auth_serv.AgentService.Payloads.{public_workflow_payload}
use user_delegated_auth_serv.AgentService.Store as Stores

-- A request to the egress gateway: the two context headers, and the body, as the gateway's model
-- reads it.
pub record EgressPost : Type 0 where
  pub base_url : String
  pub headers : String × String
  pub body : EgressRequest

pub record World : Type 0 where
  pub store : Stores.Store
  pub readings : ℕ
  pub exchanges : List WorkflowTokenExchangeRequest
  pub posts : List EgressPost

-- What the service takes from outside: the digests, the codec of signed contexts, the environment,
-- Auth0, the clock's successive readings, `uuid4().hex`, `float` (of which only the failure matters),
-- `json.loads`, and the gateway's answer after `raise_for_status`.
pub record Outside : Type 0 where
  pub lib : Digests
  pub codec : ContextCodec
  pub env : Env
  pub auth0 : Auth0
  pub clock : ℕ → ℕ
  -- `datetime.isoformat()`
  pub isoformat : ℕ → String
  pub uuid4_hex : String
  pub parse_float : String → Result (Unit {0})
  pub loads : String → Result Json
  pub answer : EgressPost → Result Fields

abbrev pub Action : Type 0 → Type 0
Action A = World → Result A × World

abbrev pub pure : {A : Type 0} → A → Action A
pure a w = (ok a, w)

abbrev pub raise : {A : Type 0} → Exception → Action A
raise e w = (err e, w)

abbrev pub lift : {A : Type 0} → Result A → Action A
lift r w = (r, w)

abbrev pub continue : {A B : Type 0} → (A → Action B) → Result A × World → Result B × World
continue f (ok a, w) = f a w
continue f (err e, w) = (err e, w)

infixl 5 ◌>>=◌ ◌>>◌
abbrev pub ◌>>=◌ : {A B : Type 0} → Action A → (A → Action B) → Action B
m >>= f = λ w. continue f (m w)

abbrev pub ◌>>◌ : {B : Type 0} → Action (Unit {0}) → Action B → Action B
m >> k = m >>= λ _. k

-- `try: m` with `except Exception as exc: handler(exc)`
abbrev pub caught : {A : Type 0} → (Exception → Action A) → Result A × World → Result A × World
caught handler (ok a, w) = (ok a, w)
caught handler (err e, w) = handler e w

abbrev pub try_except : {A : Type 0} → Action A → (Exception → Action A) → Action A
try_except m handler w = caught handler (m w)

module _ (outside : Outside) where
  -- `datetime.now(UTC)`
  abbrev pub read_clock : Action ℕ
  read_clock w = (ok (outside.clock w.readings), record w { readings = w.readings + 1 })

  -- `state_store.save_workflow`
  unfoldable pub save_workflow : WorkflowRecord → Action WorkflowRecord
  save_workflow r w = (ok r, record w { store = Stores.save_workflow r w.store })

  abbrev refreshed : ℕ → WorkflowRecord → ThreadRecord → ThreadRecord
  refreshed now workflow existing = record existing {
    active_workflow_id = some workflow.workflow_id;
    state =
        put "active_workflow_id" (str workflow.workflow_id)
          (put "workflow" (obj (public_workflow_payload outside.lib workflow)) existing.state);
    updated_at = now;
  }

  abbrev pub save_found : WorkflowRecord → Option ThreadRecord → Action (Unit {0})
  save_found workflow none w = (ok tt, w)
  save_found workflow (some existing) w = (
    ok tt,
    record w {
      store = Stores.save_thread (refreshed (outside.clock w.readings) workflow existing) w.store;
      readings = w.readings + 1;
    },
  )

  abbrev pub find_thread : WorkflowRecord → Option String → World → Option ThreadRecord
  find_thread workflow none w = none
  find_thread workflow (some thread_id) w =
      Stores.get_thread w.store thread_id workflow.user_id workflow.session_id workflow.tenant_id

  -- `_save_thread_workflow_state`
  unfoldable pub save_thread_workflow_state : WorkflowRecord → Action (Unit {0})
  save_thread_workflow_state workflow w =
      save_found workflow (find_thread workflow workflow.thread_id w) w
