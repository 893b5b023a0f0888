-- ===== src/AgentService/Messages.antt =====
-- services/agent_service/agent_service/app.py: the messages that a thread keeps, so that a browser can
-- restore them.
pub mod Restored
use Prim.Native.String.{◌++◌}
use mathlib.Core.List.{◌++◌ as append}
use user_delegated_auth_serv.Base.{
  ℕ, ◌+◌, String, Bool, true, false, Option, none, some, List, [], ◌∷◌, Result, ok, err, ◌>>=◌,
  external, is_empty, ◌==◌, ◌||◌, not, decimal, keep, if◌then◌else◌,
}
use user_delegated_auth_serv.Json.{Json, str, arr, obj, Fields, end, field, get, put}
use user_delegated_auth_serv.Json.Equality.{json_eq}
use user_delegated_auth_serv.WorkflowCore.Models.{WorkflowStep}
use user_delegated_auth_serv.AgentService.Models.{WorkflowRecord}
use user_delegated_auth_serv.AgentService.Payloads.{objects}
use user_delegated_auth_serv.AgentService.Store.{present}
use user_delegated_auth_serv.AgentService.ToolResults.{merge_tool_result}
use user_delegated_auth_serv.AgentService.Parts.{
  Draw, text_of, text_or, sanitize_message_payload, join_parts, parse_json_object,
  assistant_content_parts, tool_calls_from_message,
}

-- The assistant's message of a run, for the thread: its id, its text and the run's id.
pub record Narration : Type 0 where
  pub message_id : Option String
  pub text : Option String
  pub run_id : Option String

-- `_restorable_message_content`
unfoldable pub restorable_message_content : Option Json → Json
unfolding sanitize_message_payload
restorable_message_content (some (str content)) = str content
restorable_message_content (some (arr items)) = sanitize_message_payload (arr items)
restorable_message_content _ = str ""

abbrev with_name : Option String → Fields → Fields
with_name none message = message
with_name (some name) message = put "name" (str name) message

-- A message with the id of the given one, if that is a text, else with the fallback.
abbrev message_of : Fields → String → String → Json → Fields
message_of message fallback role content = with_name (text_of (get "name" message)) (
    field "id" (str (text_or fallback (text_of (get "id" message))))
      (field "role" (str role) (field "content" content end)))

-- A list or an object has no hash, so that Python cannot look it up in a set.
abbrev pub has_no_hash : Option Json → Bool
has_no_hash (some (arr items)) = true
has_no_hash (some (obj payload)) = true
has_no_hash _ = false

abbrev pub Kept : Type 0
Kept = List Fields × ℕ

abbrev add_last : List Fields → Fields → List Fields
add_last messages message = append messages (message ∷ [])

abbrev same_id : Option Json → Option Json → Bool
same_id none none = true
same_id (some v) (some w) = json_eq v w
same_id _ _ = false

module _ (loads : String → Result Json) (uuid4_hex : ℕ → String) where
  unfoldable pub normalize_basic_message : Fields → String → ℕ → Fields × ℕ
  unfolding get put restorable_message_content
  normalize_basic_message message role n = (
    message_of message (role ++ ("-" ++ uuid4_hex n)) role
        (restorable_message_content (get "content" message)),
    n + 1,
  )

  abbrev assistant_message : Fields → List Fields → List Fields → ℕ → Fields × ℕ
  assistant_message message parts calls n = (
    message_of message ("assistant-" ++ uuid4_hex n) "assistant"
        (arr (objects (join_parts parts calls))),
    n + 1,
  )

  unfoldable pub normalize_assistant_message : Fields → Draw Fields
  unfolding get put assistant_content_parts tool_calls_from_message join_parts objects
  normalize_assistant_message message n =
      assistant_content_parts loads uuid4_hex (get "content" message) n >>= λ parts.
      (tool_calls_from_message loads uuid4_hex message parts.1 >>= λ calls.
      ok (assistant_message message parts.0 calls.0 calls.1))

  abbrev add_drawn : List Fields → Fields × ℕ → Kept
  add_drawn messages drawn = (add_last messages drawn.0, drawn.1)

  -- The messages after one more, whose role is a text or cannot be asked for.
  abbrev pub take_role : Option Json → Fields → Kept → Result Kept
  take_role (some (str role)) message (messages, n) =
      if role == "tool"
      then (merge_tool_result loads uuid4_hex message messages >>= λ changed. ok (changed, n))
      else if role == "assistant"
      then (normalize_assistant_message message n >>= λ drawn. ok (add_drawn messages drawn))
      else if role == "system" || role == "user"
      then ok (add_drawn messages (normalize_basic_message message role n))
      else ok (messages, n)
  take_role role message kept =
      if has_no_hash role then err (external "TypeError" "unhashable type") else ok kept

  -- `_normalize_thread_message`, with what is done with its result
  unfoldable pub normalize_thread_message : Fields → Kept → Result Kept
  unfolding get merge_tool_result normalize_assistant_message normalize_basic_message
  normalize_thread_message message kept = take_role (get "role" message) message kept

  unfoldable pub normalize_messages : List Fields → Kept → Result Kept
  unfolding normalize_thread_message
  normalize_messages [] kept = ok kept
  normalize_messages (message ∷ messages) kept = do
    next ← normalize_thread_message message kept
    normalize_messages messages next

  abbrev call_id_of : Option String → WorkflowStep → ℕ → ℕ → String × ℕ
  call_id_of none step index n = ("tool-" ++ uuid4_hex n, n + 1)
  call_id_of (some run_id) step index n = (
    run_id ++ (":" ++ (if is_empty step.step_id then "step-" ++ decimal index else step.step_id)),
    n,
  )

  -- The call that a step stands for, whose result is that it is planned.
  abbrev planned_call : String → WorkflowStep → Fields → Fields
  planned_call tool_call_id step args = field "type" (str "tool-call") (
      field "toolCallId" (str tool_call_id) (
        field "toolName" (str step.action) (
          field "args" (sanitize_message_payload (obj args)) (
            field "argsText" (str step.input_payload_json) (
              field "result"
                (obj (
                  field "status" (str "planned") (
                    field "step"
                      (obj (
                        field "step_id" (str step.step_id) (
                          field "target_agent" (str step.target_agent)
                            (field "action" (str step.action) end))))
                      end)))
                end)))))

  planned_calls : Option String → ℕ → List WorkflowStep → Draw (List Fields)
  unfolding sanitize_message_payload parse_json_object decimal
  planned_calls run_id index [] n = ok ([], n)
  planned_calls run_id index (step ∷ steps) n =
      let id = call_id_of run_id step index n in
      parse_json_object loads uuid4_hex (some step.input_payload_json) >>= λ args.
      (planned_calls run_id (index + 1) steps id.1 >>= λ rest.
      ok (planned_call id.0 step args ∷ rest.0, rest.1))

  abbrev text_parts : Option String → List Fields
  text_parts none = []
  text_parts (some text) = field "type" (str "text") (field "text" (str text) end) ∷ []

  abbrev drawn_id : Option String → ℕ → String × ℕ
  drawn_id (some id) n = (id, n)
  drawn_id none n = ("assistant-" ++ uuid4_hex n, n + 1)

  abbrev with_parts : Option String → List Fields → ℕ → Option Fields × ℕ
  with_parts message_id [] n = (none, n)
  with_parts message_id (part ∷ parts) n =
      let id = drawn_id message_id n in
      (
        some (
            field "id" (str id.0) (
              field "role" (str "assistant") (field "content" (arr (objects (part ∷ parts))) end))),
        id.1,
      )

  -- `_assistant_thread_message`
  unfoldable pub assistant_thread_message : WorkflowRecord → Narration → Draw (Option Fields)
  unfolding planned_calls objects
  assistant_thread_message workflow narration n =
      planned_calls (present narration.run_id) 1 workflow.proposal.steps n >>= λ calls. ok (
        with_parts (present narration.message_id)
          (append (text_parts (present narration.text)) calls.0) calls.1)

  -- Without the messages of that id, and with the message at the end.
  abbrev replaced_by : Option Fields → List Fields → List Fields
  replaced_by none messages = messages
  replaced_by (some message) messages =
      add_last (keep (λ other. not (same_id (get "id" other) (get "id" message))) messages) message

  -- `_restorable_thread_messages`, with the assistant's message of the workflow
  unfoldable pub restorable_thread_messages :
      List Fields → WorkflowRecord → Narration → Result (List Fields)
  unfolding get json_eq normalize_messages assistant_thread_message
  restorable_thread_messages messages workflow narration =
      assistant_thread_message workflow narration 0 >>= λ assistant.
      (normalize_messages messages ([], assistant.1) >>= λ kept.
      ok (replaced_by assistant.0 kept.0))
