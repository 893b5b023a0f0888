-- ===== src/AgentService/ToolResults.antt =====
-- services/agent_service/agent_service/app.py: the result of a tool, put to its call in the messages before.
pub mod Public
use user_delegated_auth_serv.Base.{
  ℕ, String, Bool, true, false, Option, none, some, List, [], ◌∷◌, Result, ok, ◌>>=◌, ◌&&◌, ◌||◌,
  if◌then◌else◌,
}
use user_delegated_auth_serv.Json.{
  Json, null, bool, str, arr, obj, Items, nil, cons, Fields, get, put,
}
use user_delegated_auth_serv.AgentService.Parts.{
  string_message_value, is_at, sanitize_message_payload, parse_json_value,
}

abbrev pub is_assistant : Fields → Bool
is_assistant message = is_at "role" "assistant" message

abbrev content_or_none : Option Json → Json
content_or_none none = null
content_or_none (some content) = content

abbrev is_there : Option Json → Bool
is_there none = false
is_there (some v) = true

module _ (loads : String → Result Json) (uuid4_hex : ℕ → String) where
  abbrev result_of : Json → Result Json
  result_of (str content) = parse_json_value loads uuid4_hex content
  result_of content = ok content

  abbrev flagged : Fields → Fields → Fields
  flagged tool_message part =
      if is_there (get "error" tool_message) || is_at "status" "error" tool_message
      then put "isError" (bool true) part
      else part

  abbrev with_merged : Fields → Fields → Json → Fields
  with_merged tool_message part result =
      flagged tool_message (put "result" (sanitize_message_payload result) part)

  abbrev merged : Fields → Fields → Result Fields
  merged tool_message part = result_of (content_or_none (get "content" tool_message)) >>= λ result.
      ok (with_merged tool_message part result)

  abbrev is_call : String → Fields → Bool
  is_call tool_call_id part = is_at "type" "tool-call" part && is_at "toolCallId" tool_call_id part

  abbrev merge_here : String → Fields → Json → Items → Option Items → Result (Option Items)
  merge_here tool_call_id tool_message part parts (some later) = ok (some (cons part later))
  merge_here tool_call_id tool_message (obj part) parts none =
      if is_call tool_call_id part
      then (merged tool_message part >>= λ changed. ok (some (cons (obj changed) parts)))
      else ok none
  merge_here tool_call_id tool_message part parts none = ok none

  -- The last call of that id is given the result.
  merge_parts : String → Fields → Items → Result (Option Items)
  unfolding get put sanitize_message_payload parse_json_value
  merge_parts tool_call_id tool_message nil = ok none
  merge_parts tool_call_id tool_message (cons part parts) =
      merge_parts tool_call_id tool_message parts
      >>= merge_here tool_call_id tool_message part parts

  abbrev with_content : Fields → List Fields → Option Items → Option (List Fields)
  with_content message messages none = none
  with_content message messages (some parts) = some (put "content" (arr parts) message ∷ messages)

  abbrev merge_content :
      String → Fields → Fields → List Fields → Option Json → Result (Option (List Fields))
  merge_content tool_call_id tool_message message messages (some (arr parts)) =
      merge_parts tool_call_id tool_message parts >>= λ changed.
      ok (with_content message messages changed)
  merge_content tool_call_id tool_message message messages _ = ok none

  abbrev merge_message :
      String → Fields → Fields → List Fields → Option (List Fields) → Result (Option (List Fields))
  merge_message tool_call_id tool_message message messages (some later) =
      ok (some (message ∷ later))
  merge_message tool_call_id tool_message message messages none =
      if is_assistant message
      then merge_content tool_call_id tool_message message messages (get "content" message)
      else ok none

  -- The last message that has such a call.
  merge_messages : String → Fields → List Fields → Result (Option (List Fields))
  unfolding get put merge_parts
  merge_messages tool_call_id tool_message [] = ok none
  merge_messages tool_call_id tool_message (message ∷ messages) =
      merge_messages tool_call_id tool_message messages
      >>= merge_message tool_call_id tool_message message messages

  abbrev or_same : List Fields → Option (List Fields) → List Fields
  or_same messages none = messages
  or_same messages (some changed) = changed

  abbrev merge_id : Option String → Fields → List Fields → Result (List Fields)
  merge_id none tool_message messages = ok messages
  merge_id (some tool_call_id) tool_message messages =
      merge_messages tool_call_id tool_message messages >>= λ changed. ok (or_same messages changed)

  -- `_merge_tool_result`, which changes the messages before
  unfoldable pub merge_tool_result : Fields → List Fields → Result (List Fields)
  unfolding merge_messages string_message_value
  merge_tool_result tool_message messages =
      merge_id (string_message_value tool_message ("toolCallId" ∷ "tool_call_id" ∷ [])) tool_message
        messages
