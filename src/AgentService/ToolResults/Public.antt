-- ===== src/AgentService/ToolResults/Public.antt =====
-- A tool's result brings no server-only key into the messages before.
use user_delegated_auth_serv.Base.{
  ℕ, String, refl, true, Option, none, some, List, [], ◌∷◌, Result, Exception, Comes, >>=-Comes,
  All, Bool-cases, inl, inr, ◌==◌, ◌||◌,
}
use user_delegated_auth_serv.Json.{
  Json, null, bool, int, float, str, arr, obj, Items, nil, cons, Fields, end, field, get,
}
use user_delegated_auth_serv.Json.Strip.{IsPublic, ArePublic, strip_keys, strip_keys-IsPublic}
use user_delegated_auth_serv.AgentService.Payloads.{is_server_only, server_only_state_keys}
use user_delegated_auth_serv.AgentService.Parts.{
  string_message_value, sanitize_message_payload, is_at,
}
use user_delegated_auth_serv.AgentService.Parts.Public.{
  IsUnreadable, IsRead, parse_json_value-IsRead, IsKept, put-IsKept,
}
use user_delegated_auth_serv.AgentService.ToolResults.{
  with_merged, merge_tool_result, merge_id, merge_messages, with_content, or_same, merge_message,
  merge_content, merge_parts, merge_here, merged, is_call, result_of, content_or_none, is_there,
  is_assistant,
}

abbrev IsPublicIf : Option Json → Type 0
IsPublicIf none = Unit
IsPublicIf (some v) = IsPublic is_server_only v

get-IsPublicIf : (k : String) (fs : Fields) → IsKept fs → IsPublicIf (get k fs)
unfolding get IsPublic
get-IsPublicIf k end h = tt
get-IsPublicIf k (field j w fs) h = elim (Bool-cases (j == k)) [
  | inl p ↦ rw p h.1
  | inr p ↦ rw p (get-IsPublicIf k fs h.2)
]

module _ (loads : String → Result Json) (uuid4_hex : ℕ → String) where
  with_merged-IsKept :
      (tool_message part : Fields) (result : Json)
      → IsKept part
      → IsKept (with_merged loads uuid4_hex tool_message part result)
  unfolding server_only_state_keys sanitize_message_payload IsPublic
  with_merged-IsKept tool_message part result h =
      let kept =
        put-IsKept "result" (strip_keys is_server_only result) part refl
          (strip_keys-IsPublic is_server_only result) h in
      elim (Bool-cases
        (is_there (get "error" tool_message) || is_at "status" "error" tool_message)) [
          | inl e ↦ rw e (put-IsKept "isError" (bool true) _ refl tt kept)
          | inr e ↦ rw e kept
        ]

  result_of-IsRead : (content : Json) → IsRead loads uuid4_hex (result_of loads uuid4_hex content)
  result_of-IsRead (str s) = parse_json_value-IsRead loads uuid4_hex s
  result_of-IsRead null = tt
  result_of-IsRead (bool b) = tt
  result_of-IsRead (int n) = tt
  result_of-IsRead (float x) = tt
  result_of-IsRead (arr items) = tt
  result_of-IsRead (obj payload) = tt

  abbrev Unreadable : Exception → Type 0
  Unreadable e = IsUnreadable loads e

  merged-IsKept :
      (tool_message part : Fields)
      → IsKept part
      → Comes Unreadable IsKept (merged loads uuid4_hex tool_message part)
  merged-IsKept tool_message part h =
      let content = content_or_none (get "content" tool_message) in
      >>=-Comes Unreadable (λ _. Unit) IsKept (result_of loads uuid4_hex content) _
        (result_of-IsRead content) (λ result k. with_merged-IsKept tool_message part result h)

  abbrev ArePublicIf : Option Items → Type 0
  ArePublicIf none = Unit
  ArePublicIf (some items) = ArePublic is_server_only items

  abbrev MergesParts : Result (Option Items) → Type 0
  MergesParts r = Comes Unreadable ArePublicIf r

  merge_here-MergesParts :
      (id : String) (tool_message : Fields) (part : Json) (parts : Items) (later : Option Items)
      → IsPublic is_server_only part
      → ArePublic is_server_only parts
      → ArePublicIf later
      → MergesParts (merge_here loads uuid4_hex id tool_message part parts later)
  unfolding IsPublic
  merge_here-MergesParts id tool_message part parts (some later) h hs k = (h, k)
  merge_here-MergesParts id tool_message (obj part) parts none h hs k =
      elim (Bool-cases (is_call loads uuid4_hex id part)) [
        | inl e ↦ rw e (
            >>=-Comes Unreadable IsKept ArePublicIf (merged loads uuid4_hex tool_message part) _
              (merged-IsKept tool_message part h) (λ changed m. (m, hs)))
        | inr e ↦ rw e tt
      ]
  merge_here-MergesParts id tool_message null parts none h hs k = tt
  merge_here-MergesParts id tool_message (bool b) parts none h hs k = tt
  merge_here-MergesParts id tool_message (int n) parts none h hs k = tt
  merge_here-MergesParts id tool_message (float x) parts none h hs k = tt
  merge_here-MergesParts id tool_message (str s) parts none h hs k = tt
  merge_here-MergesParts id tool_message (arr items) parts none h hs k = tt

  merge_parts-MergesParts :
      (id : String) (tool_message : Fields) (parts : Items)
      → ArePublic is_server_only parts
      → MergesParts (merge_parts loads uuid4_hex id tool_message parts)
  unfolding merge_parts IsPublic
  merge_parts-MergesParts id tool_message nil h = tt
  merge_parts-MergesParts id tool_message (cons part parts) h =
      >>=-Comes Unreadable ArePublicIf ArePublicIf
        (merge_parts loads uuid4_hex id tool_message parts) _
        (merge_parts-MergesParts id tool_message parts h.1)
        (λ later k. merge_here-MergesParts id tool_message part parts later h.0 h.1 k)

  abbrev AreKeptIf : Option (List Fields) → Type 0
  AreKeptIf none = Unit
  AreKeptIf (some messages) = All IsKept messages

  abbrev MergesMessages : Result (Option (List Fields)) → Type 0
  MergesMessages r = Comes Unreadable AreKeptIf r

  with_content-AreKeptIf :
      (message : Fields) (messages : List Fields) (parts : Option Items)
      → IsKept message
      → All IsKept messages
      → ArePublicIf parts
      → AreKeptIf (with_content loads uuid4_hex message messages parts)
  unfolding server_only_state_keys IsPublic
  with_content-AreKeptIf message messages none h hs k = tt
  with_content-AreKeptIf message messages (some parts) h hs k =
      (put-IsKept "content" (arr parts) message refl k h, hs)

  merge_content-MergesMessages :
      (id : String) (tool_message message : Fields) (messages : List Fields) (content : Option Json)
      → IsKept message
      → All IsKept messages
      → IsPublicIf content
      → MergesMessages (merge_content loads uuid4_hex id tool_message message messages content)
  unfolding IsPublic
  merge_content-MergesMessages id tool_message message messages (some (arr parts)) h hs k =
      >>=-Comes Unreadable ArePublicIf AreKeptIf (merge_parts loads uuid4_hex id tool_message parts)
        _ (merge_parts-MergesParts id tool_message parts k)
        (λ changed m. with_content-AreKeptIf message messages changed h hs m)
  merge_content-MergesMessages id tool_message message messages none h hs k = tt
  merge_content-MergesMessages id tool_message message messages (some null) h hs k = tt
  merge_content-MergesMessages id tool_message message messages (some (bool b)) h hs k = tt
  merge_content-MergesMessages id tool_message message messages (some (int n)) h hs k = tt
  merge_content-MergesMessages id tool_message message messages (some (float x)) h hs k = tt
  merge_content-MergesMessages id tool_message message messages (some (str s)) h hs k = tt
  merge_content-MergesMessages id tool_message message messages (some (obj payload)) h hs k = tt

  merge_message-MergesMessages :
      (id : String) (tool_message message : Fields) (messages : List Fields)
      (later : Option (List Fields))
      → IsKept message
      → All IsKept messages
      → AreKeptIf later
      → MergesMessages (merge_message loads uuid4_hex id tool_message message messages later)
  merge_message-MergesMessages id tool_message message messages (some later) h hs k = (h, k)
  merge_message-MergesMessages id tool_message message messages none h hs k =
      elim (Bool-cases (is_assistant message)) [
        | inl e ↦ rw e (
            merge_content-MergesMessages id tool_message message messages (get "content" message) h
              hs (get-IsPublicIf "content" message h))
        | inr e ↦ rw e tt
      ]

  merge_messages-MergesMessages :
      (id : String) (tool_message : Fields) (messages : List Fields)
      → All IsKept messages
      → MergesMessages (merge_messages loads uuid4_hex id tool_message messages)
  unfolding merge_messages
  merge_messages-MergesMessages id tool_message [] h = tt
  merge_messages-MergesMessages id tool_message (message ∷ messages) h =
      >>=-Comes Unreadable AreKeptIf AreKeptIf
        (merge_messages loads uuid4_hex id tool_message messages) _
        (merge_messages-MergesMessages id tool_message messages h.1)
        (λ later k. merge_message-MergesMessages id tool_message message messages later h.0 h.1 k)

  or_same-IsKept :
      (messages : List Fields) (changed : Option (List Fields))
      → All IsKept messages
      → AreKeptIf changed
      → All IsKept (or_same loads uuid4_hex messages changed)
  or_same-IsKept messages none h k = h
  or_same-IsKept messages (some changed) h k = k

  merge_id-IsKept :
      (id : Option String) (tool_message : Fields) (messages : List Fields)
      → All IsKept messages
      → Comes Unreadable (All IsKept) (merge_id loads uuid4_hex id tool_message messages)
  merge_id-IsKept none tool_message messages h = h
  merge_id-IsKept (some id) tool_message messages h =
      >>=-Comes Unreadable AreKeptIf (All IsKept)
        (merge_messages loads uuid4_hex id tool_message messages) _
        (merge_messages-MergesMessages id tool_message messages h)
        (λ changed k. or_same-IsKept messages changed h k)

  pub merge_tool_result-IsKept :
      (tool_message : Fields) (messages : List Fields)
      → All IsKept messages
      → Comes Unreadable (All IsKept) (merge_tool_result loads uuid4_hex tool_message messages)
  unfolding merge_tool_result
  merge_tool_result-IsKept tool_message messages h =
      merge_id-IsKept (string_message_value tool_message ("toolCallId" ∷ "tool_call_id" ∷ []))
        tool_message messages h
