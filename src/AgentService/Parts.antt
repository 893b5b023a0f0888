-- ===== src/AgentService/Parts.antt =====
-- services/agent_service/agent_service/app.py: the parts of an assistant's message, as a thread keeps
-- them. `json.loads` and the successive `uuid4().hex` are parameters.
pub mod Public
use Prim.Native.String.{◌++◌}
use mathlib.Core.List.{◌++◌ as append}
use user_delegated_auth_serv.Base.{
  ℕ, ◌+◌, String, Bool, true, false, Option, none, some, List, [], ◌∷◌, Result, ok, err, ◌>>=◌,
  Exception, external, is_empty, ◌==◌, ◌&&◌, mem, if◌then◌else◌,
}
use user_delegated_auth_serv.Json.{
  Json, bool, str, arr, obj, Items, nil, cons, Fields, end, field, get, put,
}
use user_delegated_auth_serv.Json.Dumps.{dumps}
use user_delegated_auth_serv.Json.Strip.{strip_keys, strip_fields}
use user_delegated_auth_serv.AgentService.Payloads.{is_server_only, server_only_state_keys}

-- What draws `uuid4().hex` so many times, and may raise.
abbrev pub Draw : Type 0 → Type 0
Draw A = ℕ → Result (A × ℕ)

-- `json.JSONDecodeError`
abbrev pub is_decode_error : Exception → Bool
is_decode_error (external class_name text) = class_name == "JSONDecodeError"
is_decode_error e = false

-- A text that is there and not empty.
abbrev pub text_of : Option Json → Option String
text_of (some (str s)) = if is_empty s then none else some s
text_of _ = none

abbrev pub first_of : Option String → Option String → Option String
first_of (some s) next = some s
first_of none next = next

abbrev pub text_or : String → Option String → String
text_or default none = default
text_or default (some s) = s

-- `_string_message_value`
unfoldable pub string_message_value : Fields → List String → Option String
unfolding get
string_message_value payload [] = none
string_message_value payload (key ∷ keys) =
    first_of (text_of (get key payload)) (string_message_value payload keys)

abbrev is_text : Option Json → Bool
is_text (some (str s)) = true
is_text _ = false

abbrev text_is : String → Option Json → Bool
text_is s (some (str t)) = t == s
text_is s _ = false

-- `payload.get(key) == text`
abbrev pub is_at : String → String → Fields → Bool
is_at key text payload = text_is text (get key payload)

abbrev items_at : Option Json → Option Items
items_at (some (arr items)) = some items
items_at _ = none

abbrev or_items : Option Items → Option Items → Items
or_items (some items) _ = items
or_items none (some items) = items
or_items none none = nil

abbrev object_at : Option Json → Fields
object_at (some (obj payload)) = payload
object_at _ = end

-- `_sanitize_message_payload`
unfoldable pub sanitize_message_payload : Json → Json
unfolding strip_keys server_only_state_keys
sanitize_message_payload value = strip_keys is_server_only value

abbrev with_result : Option Json → Fields → Fields
with_result none part = part
with_result (some result) part = put "result" (sanitize_message_payload result) part

abbrev with_error : Option Json → Fields → Fields
with_error (some (bool is_error)) part = put "isError" (bool is_error) part
with_error _ part = part

-- The calls that a message has beside its content, without those whose id was seen.
add_unseen : List String → List Fields → List Fields
unfolding get
add_unseen seen [] = []
add_unseen seen (part ∷ parts) =
    let id = text_or "" (text_of (get "toolCallId" part)) in
    let fresh = part ∷ add_unseen (id ∷ seen) parts in
    let again = add_unseen seen parts in if mem id seen then again else fresh

-- The ids of the calls among the parts; each is a text that is not empty.
seen_tool_call_ids : List Fields → List String
unfolding get
seen_tool_call_ids [] = []
seen_tool_call_ids (part ∷ parts) =
    let rest = seen_tool_call_ids parts in
    if is_at "type" "tool-call" part
    then text_or "" (text_of (get "toolCallId" part)) ∷ rest
    else rest

unfoldable pub join_parts : List Fields → List Fields → List Fields
unfolding add_unseen seen_tool_call_ids
join_parts parts calls = append parts (add_unseen (seen_tool_call_ids parts) calls)

abbrev kept_kinds : List String
kept_kinds = "data" ∷ "file" ∷ "image" ∷ "reasoning" ∷ "source" ∷ []

abbrev cons_if : Option Fields → List Fields → List Fields
cons_if none parts = parts
cons_if (some part) parts = part ∷ parts

module _ (loads : String → Result Json) (uuid4_hex : ℕ → String) where
  -- `except json.JSONDecodeError`
  abbrev parsed_or : String → Result Json → Result Json
  parsed_or value (ok parsed) = ok parsed
  parsed_or value (err e) = if is_decode_error e then ok (str value) else err e

  -- `_parse_json_value` of a text
  unfoldable pub parse_json_value : String → Result Json
  parse_json_value value = if is_empty value then ok (str value) else parsed_or value (loads value)

  -- `_parse_json_object`
  unfoldable pub parse_json_object : Option String → Result Fields
  unfolding parse_json_value
  parse_json_object none = ok end
  parse_json_object (some value) = do parsed ← parse_json_value value; ok (object_at (some parsed))

  abbrev args_of : Option Json → Option String → Result Fields
  args_of (some (obj args)) args_text = ok args
  args_of _ args_text = parse_json_object args_text

  abbrev tool_call_part : String → Option String → Fields → Fields → Fields
  tool_call_part tool_call_id args_text args part = with_error (get "isError" part) (
      with_result (get "result" part) (
        field "type" (str "tool-call") (
          field "toolCallId" (str tool_call_id) (
            field "toolName"
              (str (
                text_or "tool"
                  (string_message_value part ("toolName" ∷ "tool_name" ∷ "name" ∷ []))))
              (field "args" (sanitize_message_payload (obj args))
                (field "argsText" (str (text_or (dumps true (obj args)) args_text)) end))))))

  abbrev drawn_or : Option String → ℕ → String × ℕ
  drawn_or (some id) n = (id, n)
  drawn_or none n = ("tool-" ++ uuid4_hex n, n + 1)

  unfoldable pub normalize_tool_call_part : Fields → Draw Fields
  unfolding get put string_message_value parse_json_object dumps sanitize_message_payload
  normalize_tool_call_part part n =
      let id = drawn_or (string_message_value part ("toolCallId" ∷ "tool_call_id" ∷ [])) n in
      let args_text = string_message_value part ("argsText" ∷ "args_text" ∷ []) in
      args_of (get "args" part) args_text >>= λ args.
      ok (tool_call_part id.0 args_text args part, id.1)

  abbrev some_call : Fields × ℕ → Result (Option Fields × ℕ)
  some_call drawn = ok (some drawn.0, drawn.1)

  abbrev part_of : Option Json → Fields → Draw (Option Fields)
  part_of (some (str part_type)) part n =
      if part_type == "text" && is_text (get "text" part)
      then ok (some part, n)
      else if part_type == "tool-call"
      then normalize_tool_call_part part n >>= some_call
      else if mem part_type kept_kinds
      then ok (some part, n)
      else ok (none, n)
  part_of _ part n = ok (none, n)

  -- The parts of a content that is a list.
  content_parts : Items → Draw (List Fields)
  unfolding get normalize_tool_call_part strip_keys server_only_state_keys
  content_parts nil n = ok ([], n)
  content_parts (cons (obj part) parts) n = do
    kept ←
        part_of (get "type" (strip_fields is_server_only part)) (strip_fields is_server_only part) n
    rest ← content_parts parts kept.1
    ok (cons_if kept.0 rest.0, rest.1)
  content_parts (cons _ parts) n = content_parts parts n

  unfoldable pub assistant_content_parts : Option Json → Draw (List Fields)
  unfolding content_parts
  assistant_content_parts (some (str content)) n = ok (
    if is_empty content
        then []
        else field "type" (str "text") (field "text" (str content) end) ∷ [],
    n,
  )
  assistant_content_parts (some (arr items)) n = content_parts items n
  assistant_content_parts _ n = ok ([], n)

  abbrev raw_call : String → Fields → Fields → Fields
  raw_call tool_call_id function_payload tool_call = field "type" (str "tool-call") (
      field "toolCallId" (str tool_call_id) (
        field "toolName"
          (str (
            text_or "tool" (
              first_of (string_message_value function_payload ("name" ∷ []))
                (string_message_value tool_call ("toolName" ∷ "tool_name" ∷ "name" ∷ [])))))
          (field "argsText"
            (str (
              text_or "{}" (
                first_of (string_message_value function_payload ("arguments" ∷ []))
                  (string_message_value tool_call ("argsText" ∷ "args_text" ∷ "arguments" ∷ [])))))
            end)))

  -- The calls in the items.
  raw_tool_calls : Items → Draw (List Fields)
  unfolding get string_message_value normalize_tool_call_part
  raw_tool_calls nil n = ok ([], n)
  raw_tool_calls (cons (obj tool_call) items) n =
      let id = drawn_or (string_message_value tool_call ("id" ∷ "toolCallId" ∷ [])) n in
      normalize_tool_call_part (raw_call id.0 (object_at (get "function" tool_call)) tool_call) id.1
      >>= λ part. (raw_tool_calls items part.1 >>= λ rest. ok (part.0 ∷ rest.0, rest.1))
  raw_tool_calls (cons _ items) n = raw_tool_calls items n

  unfoldable pub tool_calls_from_message : Fields → Draw (List Fields)
  unfolding get raw_tool_calls
  tool_calls_from_message message =
      raw_tool_calls
        (or_items (items_at (get "toolCalls" message)) (items_at (get "tool_calls" message)))
