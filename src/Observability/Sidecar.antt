-- ===== src/Observability/Sidecar.antt =====
-- services/observability_sidecar/observability_sidecar: the bounded store, and the models of its input.
use Prim.Native.String.{◌++◌}
use mathlib.Core.List.{◌++◌ as append}
use user_delegated_auth_serv.Base.{
  ℕ, suc, String, Option, none, some, List, [], ◌∷◌, map, length, ltb, sorted_set, is_empty,
  if◌then◌else◌,
}
use user_delegated_auth_serv.Json.{str, Fields, end, field, put}
use user_delegated_auth_serv.Observability.Redaction.{Texts, redact_fields}

pub record WorkflowEvent : Type 0 where
  pub event_id : String
  pub event_type : String
  pub tenant_id : Option String
  pub user_id : String
  pub session_id : String
  pub workflow_id : Option String
  pub step_id : Option String
  pub agent_name : Option String
  pub agentic_span_id : String
  pub parent_agentic_span_id : Option String
  pub trace_id : Option String
  pub plan_hash : Option String
  pub approval_id : Option String
  pub idempotency_key : Option String
  pub attributes : Fields
  pub created_at : ℕ

pub record AgenticTraceIngest : Type 0 where
  pub source_component : String
  pub event : WorkflowEvent

pub data Level : Type 0 where
  debug info warning error critical : Level

abbrev level_text : Level → String
level_text debug = "debug"
level_text info = "info"
level_text warning = "warning"
level_text error = "error"
level_text critical = "critical"

pub record LogIngest : Type 0 where
  pub source_component : String
  pub level : Level
  pub message : String
  pub attributes : Fields
  pub trace_id : Option String
  pub agentic_span_id : Option String
  pub created_at : ℕ

pub record SidecarStats : Type 0 where
  pub trace_count : ℕ
  pub log_count : ℕ

pub record TelemetryStore : Type 0 where
  pub max_items : ℕ
  pub traces : List AgenticTraceIngest
  pub logs : List LogIngest

abbrev pub new_store : ℕ → TelemetryStore
new_store max_items = record { max_items = max_items; traces = []; logs = [] }

abbrev pub drop_first {ℓ} : {A : Type ℓ} → List A → List A
drop_first [] = []
drop_first (x ∷ xs) = xs

-- `deque.append`: a full deque first drops its oldest item; one with no room stays empty.
unfoldable pub push_bounded {ℓ} : {A : Type ℓ} → ℕ → A → List A → List A
push_bounded max_items x xs =
    if ltb max_items (suc (length xs)) then drop_first (append xs (x ∷ [])) else append xs (x ∷ [])

unfoldable pub event_types_of : List AgenticTraceIngest → List String
event_types_of [] = []
event_types_of (trace ∷ rest) = trace.event.event_type ∷ event_types_of rest

abbrev components_of : List AgenticTraceIngest → List LogIngest → List String
components_of traces logs =
    append (map (λ trace. trace.source_component) traces) (map (λ log. log.source_component) logs)

-- `store.event_types()`
unfoldable pub event_types : TelemetryStore → List String
unfolding event_types_of sorted_set
event_types store = sorted_set (event_types_of store.traces)

unfoldable pub components : TelemetryStore → List String
unfolding sorted_set
components store = sorted_set (components_of store.traces store.logs)

unfoldable pub stats : TelemetryStore → SidecarStats
stats store = record { trace_count = length store.traces; log_count = length store.logs }

abbrev span_or : Option String → String
span_or none = "log"
span_or (some s) = if is_empty s then "log" else s

abbrev with_all : Fields → Fields → Fields
with_all end payload = payload
with_all (field k v rest) payload = with_all rest (put k v payload)

-- The instant's text is `created_at.isoformat()`.
unfoldable pub workflow_event_from_log : (ℕ → String) → LogIngest → WorkflowEvent
unfolding put
workflow_event_from_log isoformat log = record {
  event_id = "log:" ++ (log.source_component ++ (":" ++ isoformat log.created_at));
  event_type = "log." ++ level_text log.level;
  tenant_id = none;
  user_id = "system";
  session_id = "observability-sidecar";
  workflow_id = none;
  step_id = none;
  agent_name = some log.source_component;
  agentic_span_id = span_or log.agentic_span_id;
  parent_agentic_span_id = none;
  trace_id = log.trace_id;
  plan_hash = none;
  approval_id = none;
  idempotency_key = none;
  attributes = with_all log.attributes (field "message" (str log.message) end);
  created_at = log.created_at;
}

module _ (texts : Texts) where
  unfoldable pub safe_trace : AgenticTraceIngest → AgenticTraceIngest
  unfolding redact_fields
  safe_trace ingest = record ingest {
    event = record ingest.event { attributes = redact_fields texts ingest.event.attributes };
  }

  -- `LogIngest.redacted`
  unfoldable pub redacted : LogIngest → LogIngest
  unfolding redact_fields
  redacted log = record log {
    attributes = redact_fields texts log.attributes;
    message = texts.redact_string log.message;
  }

  unfoldable pub append_trace :
      AgenticTraceIngest → TelemetryStore → AgenticTraceIngest × TelemetryStore
  unfolding safe_trace push_bounded
  append_trace ingest store = (
    safe_trace ingest,
    record store { traces = push_bounded store.max_items (safe_trace ingest) store.traces },
  )

  unfoldable pub append_log : LogIngest → TelemetryStore → LogIngest × TelemetryStore
  unfolding redacted push_bounded
  append_log ingest store = (
    redacted ingest,
    record store { logs = push_bounded store.max_items (redacted ingest) store.logs },
  )
