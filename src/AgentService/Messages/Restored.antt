-- ===== src/AgentService/Messages/Restored.antt =====
-- The messages that a thread keeps have no server-only key.
use user_delegated_auth_serv.Base.{
  Exception, Comes, Comes-weaken, >>=-Comes, ◌⊎◌, arith, ℕ, ◌+◌, String, ◌≡◌, refl, Bool, true,
  Option, none, some, List, [], ◌∷◌, Result, All, All-append, any, Bool-cases, inl, inr, keep, not,
  ◌==◌, ◌||◌,
}
use user_delegated_auth_serv.Json.{Json, null, bool, int, float, str, arr, obj, Fields, get}
use user_delegated_auth_serv.Json.Strip.{IsPublic, strip_keys-IsPublic}
use user_delegated_auth_serv.WorkflowCore.Models.{WorkflowStep}
use user_delegated_auth_serv.AgentService.Models.{WorkflowRecord}
use user_delegated_auth_serv.AgentService.Store.{present}
use user_delegated_auth_serv.AgentService.Payloads.{is_server_only, server_only_state_keys}
use user_delegated_auth_serv.AgentService.Parts.{
  sanitize_message_payload, text_of, join_parts, parse_json_object, assistant_content_parts,
  tool_calls_from_message,
}
use user_delegated_auth_serv.AgentService.Parts.Public.{
  IsUnreadable, AreKeptParts, parse_json_object-IsRead, IsKept, put-IsKept, objects-ArePublic,
  join_parts-IsKept, assistant_content_parts-AreKeptParts, tool_calls_from_message-AreKeptParts,
}
use user_delegated_auth_serv.AgentService.ToolResults.{merge_tool_result}
use user_delegated_auth_serv.AgentService.ToolResults.Public.{merge_tool_result-IsKept}
use user_delegated_auth_serv.AgentService.Messages.{
  Narration, Kept, restorable_message_content, with_name, message_of, has_no_hash, same_id,
  take_role, normalize_basic_message, normalize_assistant_message, normalize_thread_message,
  normalize_messages, call_id_of, planned_call, planned_calls, text_parts, with_parts, replaced_by,
  assistant_thread_message, restorable_thread_messages,
}

restorable_message_content-IsPublic :
    (content : Option Json) → IsPublic is_server_only (restorable_message_content content)
unfolding restorable_message_content sanitize_message_payload IsPublic server_only_state_keys
restorable_message_content-IsPublic (some (str s)) = tt
restorable_message_content-IsPublic (some (arr items)) =
    strip_keys-IsPublic is_server_only (arr items)
restorable_message_content-IsPublic none = tt
restorable_message_content-IsPublic (some null) = tt
restorable_message_content-IsPublic (some (bool b)) = tt
restorable_message_content-IsPublic (some (int n)) = tt
restorable_message_content-IsPublic (some (float s)) = tt
restorable_message_content-IsPublic (some (obj payload)) = tt

with_name-IsKept : (name : Option String) (fs : Fields) → IsKept fs → IsKept (with_name name fs)
unfolding server_only_state_keys IsPublic
with_name-IsKept none fs h = h
with_name-IsKept (some name) fs h = put-IsKept "name" (str name) fs refl tt h

message_of-IsKept :
    (message : Fields) (fallback role : String) (content : Json)
    → IsPublic is_server_only content
    → IsKept (message_of message fallback role content)
unfolding server_only_state_keys IsPublic
message_of-IsKept message fallback role content h =
    with_name-IsKept (text_of (get "name" message)) _ (refl, tt, (refl, tt, (refl, h, tt)))

keep-IsKept : (p : Fields → Bool) (fss : List Fields) → All IsKept fss → All IsKept (keep p fss)
keep-IsKept p [] h = tt
keep-IsKept p (fs ∷ fss) h = elim (Bool-cases (p fs)) [
  | inl e ↦ rw e (h.0, keep-IsKept p fss h.1)
  | inr e ↦ rw e (keep-IsKept p fss h.1)
]

abbrev IsKeptIf : Option Fields → Type 0
IsKeptIf none = Unit
IsKeptIf (some fs) = IsKept fs

-- The role of a message is a list or an object.
abbrev pub has_bad_role : Fields → Bool
has_bad_role message = has_no_hash (get "role" message)

-- Why messages cannot be kept: the role of one is a list or an object, or `json.loads` raises the
-- exception of some text, and it is no `JSONDecodeError`.
abbrev pub IsUnkept : (String → Result Json) → List Fields → Exception → Type 0
IsUnkept loads messages e = (any has_bad_role messages ≡ true) ⊎ IsUnreadable loads e

any-later :
    (message : Fields) (messages : List Fields)
    → any has_bad_role messages ≡ true
    → any has_bad_role (message ∷ messages) ≡ true
any-later message messages h = ground (arith, h)

module _ (loads : String → Result Json) (uuid4_hex : ℕ → String) where
  abbrev Unreadable : Exception → Type 0
  Unreadable e = IsUnreadable loads e

  abbrev IsUnfit : Option Json → Exception → Type 0
  IsUnfit role e = (has_no_hash role ≡ true) ⊎ IsUnreadable loads e

  normalize_assistant_message-IsKept :
      (message : Fields) (n : ℕ)
      → Comes Unreadable (λ d. IsKept d.0) (normalize_assistant_message loads uuid4_hex message n)
  unfolding normalize_assistant_message IsPublic
  normalize_assistant_message-IsKept message n =
      >>=-Comes Unreadable (λ d. All IsKept d.0) (λ d. IsKept d.0)
        (assistant_content_parts loads uuid4_hex (get "content" message) n) _
        (assistant_content_parts-AreKeptParts loads uuid4_hex (get "content" message) n)
        (λ parts h.
          >>=-Comes Unreadable (λ d. All IsKept d.0) (λ d. IsKept d.0)
            (tool_calls_from_message loads uuid4_hex message parts.1) _
            (tool_calls_from_message-AreKeptParts loads uuid4_hex message parts.1)
            (λ calls k. message_of-IsKept message _ "assistant" _ (
              objects-ArePublic (join_parts parts.0 calls.0)
                (join_parts-IsKept parts.0 calls.0 h k))))

  abbrev AreKept : Kept → Type 0
  AreKept kept = All IsKept kept.0

  take_role-AreKept :
      (role : Option Json) (message : Fields) (messages : List Fields) (n : ℕ)
      → All IsKept messages
      → Comes (IsUnfit role) AreKept (take_role loads uuid4_hex role message (messages, n))
  unfolding normalize_basic_message
  take_role-AreKept (some (str role)) message messages n h =
      Comes-weaken Unreadable (IsUnfit (some (str role))) AreKept
        (take_role loads uuid4_hex (some (str role)) message (messages, n)) (λ e u. inr u)
        (elim (Bool-cases (role == "tool")) [
          | inl e ↦ rw e (
              >>=-Comes Unreadable (All IsKept) AreKept
                (merge_tool_result loads uuid4_hex message messages) _
                (merge_tool_result-IsKept loads uuid4_hex message messages h) (λ changed k. k))
          | inr e ↦ elim (Bool-cases (role == "assistant")) [
            | inl f ↦
                rw (e, f)
                  (>>=-Comes Unreadable (λ d. IsKept d.0) AreKept
                    (normalize_assistant_message loads uuid4_hex message n) _
                    (normalize_assistant_message-IsKept message n)
                    (λ drawn k. All-append IsKept messages _ h (k, tt)))
            | inr f ↦ elim (Bool-cases (role == "system" || role == "user")) [
              | inl g ↦
                  rw (e, f, g)
                    (All-append IsKept messages _ h (
                      message_of-IsKept message _ role _
                          (restorable_message_content-IsPublic (get "content" message)),
                      tt,
                    ))
              | inr g ↦ rw (e, f, g) h
            ]
          ]
        ])
  take_role-AreKept none message messages n h = h
  take_role-AreKept (some null) message messages n h = h
  take_role-AreKept (some (bool b)) message messages n h = h
  take_role-AreKept (some (int i)) message messages n h = h
  take_role-AreKept (some (float x)) message messages n h = h
  take_role-AreKept (some (arr items)) message messages n h = inl refl
  take_role-AreKept (some (obj payload)) message messages n h = inl refl

  IsUnfit-IsUnkept :
      (message : Fields) (messages : List Fields) (e : Exception)
      → IsUnfit (get "role" message) e
      → IsUnkept loads (message ∷ messages) e
  IsUnfit-IsUnkept message messages e (inl bad) = inl (rw bad refl)
  IsUnfit-IsUnkept message messages e (inr u) = inr u

  IsUnkept-later :
      (message : Fields) (messages : List Fields) (e : Exception)
      → IsUnkept loads messages e
      → IsUnkept loads (message ∷ messages) e
  IsUnkept-later message messages e (inl bad) = inl (any-later message messages bad)
  IsUnkept-later message messages e (inr u) = inr u

  normalize_messages-AreKept :
      (new messages : List Fields) (n : ℕ)
      → All IsKept messages
      → Comes (IsUnkept loads new) AreKept (normalize_messages loads uuid4_hex new (messages, n))
  unfolding normalize_messages normalize_thread_message
  normalize_messages-AreKept [] messages n h = h
  normalize_messages-AreKept (message ∷ new) messages n h =
      >>=-Comes (IsUnkept loads (message ∷ new)) AreKept AreKept
        (normalize_thread_message loads uuid4_hex message (messages, n))
        (normalize_messages loads uuid4_hex new)
        (Comes-weaken (IsUnfit (get "role" message)) (IsUnkept loads (message ∷ new)) AreKept
          (take_role loads uuid4_hex (get "role" message) message (messages, n))
          (IsUnfit-IsUnkept message new)
          (take_role-AreKept (get "role" message) message messages n h))
        (λ kept k.
          Comes-weaken (IsUnkept loads new) (IsUnkept loads (message ∷ new)) AreKept
            (normalize_messages loads uuid4_hex new kept) (IsUnkept-later message new)
            (normalize_messages-AreKept new kept.0 kept.1 k))

  planned_call-IsKept :
      (id : String) (step : WorkflowStep) (args : Fields)
      → IsKept (planned_call loads uuid4_hex id step args)
  unfolding sanitize_message_payload server_only_state_keys IsPublic
  planned_call-IsKept id step args = (
    refl,
    tt,
    (
      refl,
      tt,
      (
        refl,
        tt,
        (
          refl,
          strip_keys-IsPublic is_server_only (obj args),
          (refl, tt, (refl, (refl, tt, (refl, (refl, tt, (refl, tt, (refl, tt, tt))), tt)), tt)),
        ),
      ),
    ),
  )

  planned_calls-AreKeptParts :
      (run_id : Option String) (index : ℕ) (steps : List WorkflowStep) (n : ℕ)
      → AreKeptParts loads uuid4_hex (planned_calls loads uuid4_hex run_id index steps n)
  unfolding planned_calls
  planned_calls-AreKeptParts run_id index [] n = tt
  planned_calls-AreKeptParts run_id index (step ∷ steps) n =
      let id = call_id_of loads uuid4_hex run_id step index n in
      >>=-Comes Unreadable (λ _. Unit) (λ d. All IsKept d.0)
        (parse_json_object loads uuid4_hex (some step.input_payload_json)) _
        (parse_json_object-IsRead loads uuid4_hex (some step.input_payload_json))
        (λ args h.
          >>=-Comes Unreadable (λ d. All IsKept d.0) (λ d. All IsKept d.0)
            (planned_calls loads uuid4_hex run_id (index + 1) steps id.1) _
            (planned_calls-AreKeptParts run_id (index + 1) steps id.1)
            (λ rest k. (planned_call-IsKept id.0 step args, k)))

  text_parts-IsKept : (text : Option String) → All IsKept (text_parts loads uuid4_hex text)
  unfolding server_only_state_keys IsPublic
  text_parts-IsKept none = tt
  text_parts-IsKept (some text) = ((refl, tt, (refl, tt, tt)), tt)

  with_parts-IsKeptIf :
      (message_id : Option String) (parts : List Fields) (n : ℕ)
      → All IsKept parts
      → IsKeptIf (with_parts loads uuid4_hex message_id parts n).0
  unfolding server_only_state_keys IsPublic
  with_parts-IsKeptIf message_id [] n h = tt
  with_parts-IsKeptIf message_id (part ∷ parts) n h =
      (refl, tt, (refl, tt, (refl, objects-ArePublic (part ∷ parts) h, tt)))

  assistant_thread_message-IsKeptIf :
      (workflow : WorkflowRecord) (narration : Narration) (n : ℕ)
      → Comes Unreadable
          (λ d. IsKeptIf d.0)
          (assistant_thread_message loads uuid4_hex workflow narration n)
  unfolding assistant_thread_message
  assistant_thread_message-IsKeptIf workflow narration n =
      let steps = workflow.proposal.steps in
      >>=-Comes Unreadable (λ d. All IsKept d.0) (λ d. IsKeptIf d.0)
        (planned_calls loads uuid4_hex (present narration.run_id) 1 steps n) _
        (planned_calls-AreKeptParts (present narration.run_id) 1 steps n)
        (λ calls h. with_parts-IsKeptIf (present narration.message_id) _ calls.1 (
          All-append IsKept (text_parts loads uuid4_hex (present narration.text)) calls.0
            (text_parts-IsKept (present narration.text)) h))

  replaced_by-IsKept :
      (assistant : Option Fields) (messages : List Fields)
      → IsKeptIf assistant
      → All IsKept messages
      → All IsKept (replaced_by loads uuid4_hex assistant messages)
  replaced_by-IsKept none messages h k = k
  replaced_by-IsKept (some message) messages h k =
      All-append IsKept _ (message ∷ [])
        (keep-IsKept (λ other. not (same_id (get "id" other) (get "id" message))) messages k)
        (h, tt)

  -- Whatever messages a browser sends, what a thread keeps of them, with the assistant's message of the
  -- workflow, has no server-only key at any depth of a message. An exception is raised only if the role
  -- of one of the messages is a list or an object, or if `json.loads` raises that exception of some text
  -- and it is no `JSONDecodeError`.
  pub restorable_thread_messages-AreRestored :
      (messages : List Fields) (workflow : WorkflowRecord) (narration : Narration)
      → Comes
          (IsUnkept loads messages)
          (All IsKept)
          (restorable_thread_messages loads uuid4_hex messages workflow narration)
  unfolding restorable_thread_messages
  restorable_thread_messages-AreRestored messages workflow narration =
      >>=-Comes (IsUnkept loads messages) (λ d. IsKeptIf d.0) (All IsKept)
        (assistant_thread_message loads uuid4_hex workflow narration 0) _
        (Comes-weaken Unreadable (IsUnkept loads messages) (λ d. IsKeptIf d.0)
          (assistant_thread_message loads uuid4_hex workflow narration 0) (λ e u. inr u)
          (assistant_thread_message-IsKeptIf workflow narration 0))
        (λ assistant h.
          >>=-Comes (IsUnkept loads messages) AreKept (All IsKept)
            (normalize_messages loads uuid4_hex messages ([], assistant.1)) _
            (normalize_messages-AreKept messages [] assistant.1 tt)
            (λ kept k. replaced_by-IsKept assistant.0 kept.0 h k))
