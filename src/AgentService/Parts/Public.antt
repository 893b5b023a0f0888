-- ===== src/AgentService/Parts/Public.antt =====
-- The parts of a kept message have no server-only key.
use user_delegated_auth_serv.Base.{
  ℕ, String, ◌≡◌, refl, false, Option, none, some, List, [], ◌∷◌, Result, err, Exception, Comes,
  >>=-Comes, Result-cases, All, All-append, Bool-cases, inl, inr, mem, ◌==◌, ◌&&◌, is_empty,
}
use user_delegated_auth_serv.Json.{
  Json, null, bool, int, float, str, arr, obj, Items, nil, cons, Fields, get, put,
}
use user_delegated_auth_serv.Json.Strip.{
  IsPublic, ArePublic, HasPublic, put-HasPublic, strip_keys, strip_keys-IsPublic, strip_fields,
  strip_fields-HasPublic,
}
use user_delegated_auth_serv.AgentService.Payloads.{is_server_only, server_only_state_keys, objects}
use user_delegated_auth_serv.AgentService.Parts.{
  is_decode_error, parse_json_value, parse_json_object, tool_call_part, string_message_value,
  sanitize_message_payload, with_result, with_error, normalize_tool_call_part, args_of, drawn_or,
  part_of, kept_kinds, is_text, content_parts, assistant_content_parts, raw_tool_calls, raw_call,
  tool_calls_from_message, add_unseen, join_parts, text_or, text_of, object_at, cons_if, or_items,
  items_at, seen_tool_call_ids,
}

-- No server-only key at any depth.
abbrev pub IsKept : Fields → Type 0
IsKept payload = HasPublic is_server_only payload

pub put-IsKept :
    (k : String) (v : Json) (fs : Fields)
    → is_server_only k ≡ false
    → IsPublic is_server_only v
    → IsKept fs
    → IsKept (put k v fs)
put-IsKept k v fs p h kept = put-HasPublic is_server_only k v fs p h kept

pub objects-ArePublic :
    (fss : List Fields) → All IsKept fss → ArePublic is_server_only (objects fss)
unfolding objects IsPublic
objects-ArePublic [] h = tt
objects-ArePublic (fs ∷ fss) h = (h.0, objects-ArePublic fss h.1)

with_result-IsKept : (o : Option Json) (fs : Fields) → IsKept fs → IsKept (with_result o fs)
unfolding sanitize_message_payload server_only_state_keys
with_result-IsKept none fs h = h
with_result-IsKept (some v) fs h =
    put-IsKept "result" (strip_keys is_server_only v) fs refl (strip_keys-IsPublic is_server_only v)
      h

with_error-IsKept : (o : Option Json) (fs : Fields) → IsKept fs → IsKept (with_error o fs)
unfolding server_only_state_keys IsPublic
with_error-IsKept none fs h = h
with_error-IsKept (some null) fs h = h
with_error-IsKept (some (bool b)) fs h = put-IsKept "isError" (bool b) fs refl tt h
with_error-IsKept (some (int n)) fs h = h
with_error-IsKept (some (float s)) fs h = h
with_error-IsKept (some (str s)) fs h = h
with_error-IsKept (some (arr items)) fs h = h
with_error-IsKept (some (obj payload)) fs h = h

add_unseen-IsKept :
    (seen : List String) (parts : List Fields)
    → All IsKept parts
    → All IsKept (add_unseen seen parts)
unfolding add_unseen
add_unseen-IsKept seen [] h = tt
add_unseen-IsKept seen (part ∷ parts) h =
    let id = text_or "" (text_of (get "toolCallId" part)) in
    elim (Bool-cases (mem id seen)) [
      | inl e ↦ rw e (add_unseen-IsKept seen parts h.1)
      | inr e ↦ rw e (h.0, add_unseen-IsKept (id ∷ seen) parts h.1)
    ]

pub join_parts-IsKept :
    (parts calls : List Fields)
    → All IsKept parts
    → All IsKept calls
    → All IsKept (join_parts parts calls)
unfolding join_parts
join_parts-IsKept parts calls h k =
    All-append IsKept parts (add_unseen (seen_tool_call_ids parts) calls) h
      (add_unseen-IsKept (seen_tool_call_ids parts) calls k)

abbrev IsKeptIf : Option Fields → Type 0
IsKeptIf none = Unit
IsKeptIf (some part) = IsKept part

cons_if-IsKept :
    (part : Option Fields) (parts : List Fields)
    → IsKeptIf part
    → All IsKept parts
    → All IsKept (cons_if part parts)
cons_if-IsKept none parts h k = k
cons_if-IsKept (some part) parts h k = (h, k)

-- `json.loads` raises it of a text, and it is no `JSONDecodeError`.
abbrev pub IsUnreadable : (String → Result Json) → Exception → Type 0
IsUnreadable loads e = (text : String) × (loads text ≡ err e) × (is_decode_error e ≡ false)

module _ (loads : String → Result Json) (uuid4_hex : ℕ → String) where
  abbrev pub IsRead {ℓ} : {A : Type ℓ} → Result A → Type 0
  IsRead r = Comes (IsUnreadable loads) (λ _. Unit) r

  pub parse_json_value-IsRead : (text : String) → IsRead (parse_json_value loads uuid4_hex text)
  unfolding parse_json_value
  parse_json_value-IsRead text = elim (Bool-cases (is_empty text)) [
    | inl p ↦ rw p tt
    | inr p ↦ elim (Result-cases (loads text)) [
      | inl (e, q) ↦ elim (Bool-cases (is_decode_error e)) [
        | inl d ↦ rw (p, q, d) tt
        | inr d ↦ rw (p, q, d) (text, q, d)
      ]
      | inr (parsed, q) ↦ rw (p, q) tt
    ]
  ]

  pub parse_json_object-IsRead :
      (text : Option String) → IsRead (parse_json_object loads uuid4_hex text)
  unfolding parse_json_object
  parse_json_object-IsRead none = tt
  parse_json_object-IsRead (some text) =
      >>=-Comes (IsUnreadable loads) (λ _. Unit) (λ _. Unit) (parse_json_value loads uuid4_hex text)
        _ (parse_json_value-IsRead text) (λ parsed h. tt)

  args_of-IsRead :
      (args : Option Json) (text : Option String) → IsRead (args_of loads uuid4_hex args text)
  args_of-IsRead (some (obj args)) text = tt
  args_of-IsRead none text = parse_json_object-IsRead text
  args_of-IsRead (some null) text = parse_json_object-IsRead text
  args_of-IsRead (some (bool b)) text = parse_json_object-IsRead text
  args_of-IsRead (some (int i)) text = parse_json_object-IsRead text
  args_of-IsRead (some (float x)) text = parse_json_object-IsRead text
  args_of-IsRead (some (str s)) text = parse_json_object-IsRead text
  args_of-IsRead (some (arr items)) text = parse_json_object-IsRead text

  tool_call_part-IsKept :
      (id : String) (args_text : Option String) (args part : Fields)
      → IsKept (tool_call_part loads uuid4_hex id args_text args part)
  unfolding sanitize_message_payload server_only_state_keys IsPublic
  tool_call_part-IsKept id args_text args part = with_error-IsKept (get "isError" part) _ (
      with_result-IsKept (get "result" part) _ (
        refl,
        tt,
        (
          refl,
          tt,
          (refl, tt, (refl, strip_keys-IsPublic is_server_only (obj args), (refl, tt, tt))),
        ),
      ))

  -- A drawn part, or parts, without server-only keys; or `json.loads` raises.
  abbrev IsKeptPart : Result (Fields × ℕ) → Type 0
  IsKeptPart r = Comes (IsUnreadable loads) (λ d. IsKept d.0) r

  abbrev pub AreKeptParts : Result (List Fields × ℕ) → Type 0
  AreKeptParts r = Comes (IsUnreadable loads) (λ d. All IsKept d.0) r

  abbrev IsKeptIfPart : Result (Option Fields × ℕ) → Type 0
  IsKeptIfPart r = Comes (IsUnreadable loads) (λ d. IsKeptIf d.0) r

  normalize_tool_call_part-IsKeptPart :
      (part : Fields) (n : ℕ) → IsKeptPart (normalize_tool_call_part loads uuid4_hex part n)
  unfolding normalize_tool_call_part
  normalize_tool_call_part-IsKeptPart part n =
      let args_text = string_message_value part ("argsText" ∷ "args_text" ∷ []) in
      >>=-Comes (IsUnreadable loads) (λ _. Unit) (λ d. IsKept d.0)
        (args_of loads uuid4_hex (get "args" part) args_text) _
        (args_of-IsRead (get "args" part) args_text)
        (λ args h. tool_call_part-IsKept _ args_text args part)

  part_of-IsKeptIfPart :
      (o : Option Json) (part : Fields) (n : ℕ)
      → IsKept part
      → IsKeptIfPart (part_of loads uuid4_hex o part n)
  part_of-IsKeptIfPart (some (str t)) part n h =
      elim (Bool-cases (t == "text" && is_text (get "text" part))) [
        | inl e ↦ rw e h
        | inr e ↦ elim (Bool-cases (t == "tool-call")) [
          | inl f ↦
              rw (e, f)
                (>>=-Comes (IsUnreadable loads) (λ d. IsKept d.0) (λ d. IsKeptIf d.0)
                  (normalize_tool_call_part loads uuid4_hex part n) _
                  (normalize_tool_call_part-IsKeptPart part n) (λ d k. k))
          | inr f ↦ elim (Bool-cases (mem t kept_kinds)) [
            | inl g ↦ rw (e, f, g) h
            | inr g ↦ rw (e, f, g) tt
          ]
        ]
      ]
  part_of-IsKeptIfPart none part n h = tt
  part_of-IsKeptIfPart (some null) part n h = tt
  part_of-IsKeptIfPart (some (bool b)) part n h = tt
  part_of-IsKeptIfPart (some (int i)) part n h = tt
  part_of-IsKeptIfPart (some (float x)) part n h = tt
  part_of-IsKeptIfPart (some (arr items)) part n h = tt
  part_of-IsKeptIfPart (some (obj payload)) part n h = tt

  content_parts-AreKeptParts :
      (items : Items) (n : ℕ) → AreKeptParts (content_parts loads uuid4_hex items n)
  unfolding content_parts
  content_parts-AreKeptParts nil n = tt
  content_parts-AreKeptParts (cons (obj part) items) n =
      let safe = strip_fields is_server_only part in
      >>=-Comes (IsUnreadable loads) (λ d. IsKeptIf d.0) (λ d. All IsKept d.0)
        (part_of loads uuid4_hex (get "type" safe) safe n) _
        (part_of-IsKeptIfPart (get "type" safe) safe n (strip_fields-HasPublic is_server_only part))
        (λ kept h.
          >>=-Comes (IsUnreadable loads) (λ d. All IsKept d.0) (λ d. All IsKept d.0)
            (content_parts loads uuid4_hex items kept.1) _ (content_parts-AreKeptParts items kept.1)
            (λ rest k. cons_if-IsKept kept.0 rest.0 h k))
  content_parts-AreKeptParts (cons null items) n = content_parts-AreKeptParts items n
  content_parts-AreKeptParts (cons (bool b) items) n = content_parts-AreKeptParts items n
  content_parts-AreKeptParts (cons (int i) items) n = content_parts-AreKeptParts items n
  content_parts-AreKeptParts (cons (float x) items) n = content_parts-AreKeptParts items n
  content_parts-AreKeptParts (cons (str s) items) n = content_parts-AreKeptParts items n
  content_parts-AreKeptParts (cons (arr xs) items) n = content_parts-AreKeptParts items n

  pub assistant_content_parts-AreKeptParts :
      (o : Option Json) (n : ℕ) → AreKeptParts (assistant_content_parts loads uuid4_hex o n)
  unfolding assistant_content_parts server_only_state_keys IsPublic
  assistant_content_parts-AreKeptParts (some (str s)) n = elim (Bool-cases (is_empty s)) [
    | inl e ↦ rw e tt
    | inr e ↦ rw e ((refl, tt, (refl, tt, tt)), tt)
  ]
  assistant_content_parts-AreKeptParts (some (arr items)) n = content_parts-AreKeptParts items n
  assistant_content_parts-AreKeptParts none n = tt
  assistant_content_parts-AreKeptParts (some null) n = tt
  assistant_content_parts-AreKeptParts (some (bool b)) n = tt
  assistant_content_parts-AreKeptParts (some (int i)) n = tt
  assistant_content_parts-AreKeptParts (some (float x)) n = tt
  assistant_content_parts-AreKeptParts (some (obj payload)) n = tt

  raw_tool_calls-AreKeptParts :
      (items : Items) (n : ℕ) → AreKeptParts (raw_tool_calls loads uuid4_hex items n)
  unfolding raw_tool_calls
  raw_tool_calls-AreKeptParts nil n = tt
  raw_tool_calls-AreKeptParts (cons (obj call) items) n =
      let id = drawn_or loads uuid4_hex (string_message_value call ("id" ∷ "toolCallId" ∷ [])) n in
      let raw = raw_call loads uuid4_hex id.0 (object_at (get "function" call)) call in
      >>=-Comes (IsUnreadable loads) (λ d. IsKept d.0) (λ d. All IsKept d.0)
        (normalize_tool_call_part loads uuid4_hex raw id.1) _
        (normalize_tool_call_part-IsKeptPart raw id.1)
        (λ part h.
          >>=-Comes (IsUnreadable loads) (λ d. All IsKept d.0) (λ d. All IsKept d.0)
            (raw_tool_calls loads uuid4_hex items part.1) _
            (raw_tool_calls-AreKeptParts items part.1) (λ rest k. (h, k)))
  raw_tool_calls-AreKeptParts (cons null items) n = raw_tool_calls-AreKeptParts items n
  raw_tool_calls-AreKeptParts (cons (bool b) items) n = raw_tool_calls-AreKeptParts items n
  raw_tool_calls-AreKeptParts (cons (int i) items) n = raw_tool_calls-AreKeptParts items n
  raw_tool_calls-AreKeptParts (cons (float x) items) n = raw_tool_calls-AreKeptParts items n
  raw_tool_calls-AreKeptParts (cons (str s) items) n = raw_tool_calls-AreKeptParts items n
  raw_tool_calls-AreKeptParts (cons (arr xs) items) n = raw_tool_calls-AreKeptParts items n

  pub tool_calls_from_message-AreKeptParts :
      (message : Fields) (n : ℕ) → AreKeptParts (tool_calls_from_message loads uuid4_hex message n)
  unfolding tool_calls_from_message
  tool_calls_from_message-AreKeptParts message n =
      raw_tool_calls-AreKeptParts
        (or_items (items_at (get "toolCalls" message)) (items_at (get "tool_calls" message))) n
