-- ===== src/AgUiGateway/Sse.antt =====
-- services/ag_ui_gateway/ag_ui_gateway/sse.py and app.py: the events that the browser is sent.
use Prim.Native.String.{[], ◌∷◌, ◌++◌ as append}
use mathlib.Core.List.{reverse}
use user_delegated_auth_serv.Base.{
  ℕ, Char, String, Bool, true, false, Option, none, some, List, [], ◌∷◌, ◌++◌, map, Result, ok, err,
  Exception, class_name_of, http_exception, internal_auth_error, mem, is_empty, strip, opt_eq, ◌==◌,
  keep, not, ◌&&◌, if◌then◌else◌,
}
use user_delegated_auth_serv.Externals.{Digests}
use user_delegated_auth_serv.Json.{
  Json, str, arr, obj, Fields, end, field, get, strings, nullable, truthy,
}
use user_delegated_auth_serv.Json.Strip.{strip_keys, strip_fields}
use user_delegated_auth_serv.Json.Dumps.{dumps, join}
use user_delegated_auth_serv.SessionState.InternalAuth.{
  TrustedSessionContext, ContextCodec, signed_session_context_headers, verify_session_context,
  optional_strings,
}
use user_delegated_auth_serv.AgUiGateway.Models.{
  Python, RunAgentInput, AgUiMessage, Content, no_content, text, parts, dump_messages,
}
use user_delegated_auth_serv.AgUiGateway.Client.{Stream, Response, stream_run}

unfoldable pub encode_sse : Fields → String
unfolding dumps
encode_sse event = append "data: " (append (dumps true (obj event)) "\n\n")

-- `_BROWSER_PRIVATE_KEYS`
unfoldable pub browser_private_keys : List String
browser_private_keys =
    "accesstoken" ∷ "allowedtools" ∷ "authcontextref" ∷ "authorization" ∷ "bearertoken"
    ∷ "clientsecret" ∷ "credential" ∷ "idtoken" ∷ "password" ∷ "privatekey" ∷ "rawtoken"
    ∷ "refreshtoken" ∷ "secret" ∷ "sessionid" ∷ "tenantid" ∷ "token" ∷ "tokenref" ∷ "tokenscopes"
    ∷ "userid" ∷ []

unfoldable pub keep_chars : (Char → Bool) → String → String
keep_chars p [] = []
keep_chars p (c ∷ s) = if p c then c ∷ keep_chars p s else keep_chars p s

module _ (python : Python) where
  unfoldable pub normalized_private_key : String → String
  unfolding keep_chars
  normalized_private_key key = keep_chars python.is_alnum (python.lower key)

  abbrev pub is_private : String → Bool
  is_private key = mem (normalized_private_key key) browser_private_keys

  -- `_browser_event`
  unfoldable pub browser_event : Fields → Fields
  unfolding strip_keys normalized_private_key browser_private_keys
  browser_event event = strip_fields is_private event

  -- `_public_state` looks at the outermost keys only.
  unfoldable pub public_state : Fields → Fields
  unfolding normalized_private_key browser_private_keys
  public_state end = end
  public_state (field k v fs) =
      if is_private k then public_state fs else field k v (public_state fs)

  abbrev is_text : Option Json → Bool
  is_text (some (str s)) = s == "text"
  is_text _ = false

  abbrev part_texts : Option Json → List String
  part_texts none = []
  part_texts (some (str s)) = if is_empty s then [] else strip s ∷ []
  part_texts (some v) = if truthy v then strip (python.str_of v) ∷ [] else []

  abbrev pub texts_of : List Fields → List String
  texts_of [] = []
  texts_of (part ∷ rest) =
      (if is_text (get "type" part) then part_texts (get "text" part) else []) ++ texts_of rest

  unfoldable pub message_content_text : Content → String
  unfolding strip truthy get join
  message_content_text no_content = []
  message_content_text (text s) = strip s
  message_content_text (parts ps) = join " " (keep (λ part. not (is_empty part)) (texts_of ps))

  first_user_text : List AgUiMessage → String
  unfolding message_content_text
  first_user_text [] = "Plan workflow"
  first_user_text (message ∷ rest) =
      if opt_eq message.role (some "user") && not (is_empty (message_content_text message.content))
      then message_content_text message.content
      else first_user_text rest

  unfoldable pub latest_user_text : RunAgentInput → String
  unfolding first_user_text
  latest_user_text request = first_user_text (reverse request.messages)

  unfoldable pub agent_run_payload : RunAgentInput → TrustedSessionContext → Fields
  unfolding public_state latest_user_text dump_messages
  agent_run_payload request context = field "question" (str (latest_user_text request)) (
      field "messages" (arr (dump_messages request.messages)) (
        field "state" (obj (public_state request.state)) (
          field "allowed_tools" (optional_strings context.allowed_tools) (
            field "session_id" (str context.session_id) (
              field "tenant_id" (nullable context.tenant_id) (
                field "token_ref" (nullable context.token_ref) (
                  field "token_scopes" (arr (strings context.token_scopes)) (
                    field "user_id" (str context.user_id) (
                      field "thread_id" (str request.thread_id)
                        (field "run_id" (str request.run_id) end))))))))))

  abbrev pub is_started : Option Json → Bool
  is_started (some (str s)) = s == "RUN_STARTED"
  is_started _ = false

  -- `emitted_started`
  abbrev pub has_started : List Fields → Bool
  has_started [] = false
  has_started (event ∷ rest) = if is_started (get "type" event) then true else has_started rest

  abbrev message_of : Exception → String
  message_of e =
      if is_empty (python.str_exception e) then class_name_of e else python.str_exception e

  abbrev pub run_started : RunAgentInput → Fields
  run_started request =
      field "type" (str "RUN_STARTED")
        (field "threadId" (str request.thread_id) (field "runId" (str request.run_id) end))

  abbrev pub run_error : Exception → Fields
  run_error e =
      field "type" (str "RUN_ERROR")
        (field "message" (str (message_of e)) (field "code" (str "AGENT_SERVICE_ERROR") end))

  abbrev pub on_failure : RunAgentInput → Bool → Option Exception → List Fields
  on_failure request emitted_started none = []
  on_failure request emitted_started (some e) =
      if emitted_started then run_error e ∷ [] else run_started request ∷ run_error e ∷ []

  -- What is encoded and sent for the events of a response.
  unfoldable pub frames : RunAgentInput → Stream Fields → List Fields
  unfolding browser_event get
  frames request stream =
      map browser_event stream.events
      ++ on_failure request (has_started stream.events) stream.failure

  module _ (lib : Digests) (codec : ContextCodec) (loads : String → Result Json)
      (agent_service : Fields → String × String → Response) where
    abbrev run_with : Fields → Result (String × String) → Stream Fields
    run_with payload (err e) = record { events = []; failure = some e }
    run_with payload (ok headers) = stream_run loads (agent_service payload headers)

    unfoldable pub stream_agent_events :
        RunAgentInput → TrustedSessionContext → String → List String
    unfolding frames encode_sse agent_run_payload signed_session_context_headers stream_run
    stream_agent_events request context secret = map encode_sse (
        frames request (
          run_with (agent_run_payload request context)
            (signed_session_context_headers lib codec context secret)))

    abbrev context_error : Exception → Exception
    context_error (internal_auth_error detail) = http_exception 401 detail
    context_error e = e

    abbrev answer : RunAgentInput → String → Result TrustedSessionContext → Result (List String)
    answer request secret (err e) = err (context_error e)
    answer request secret (ok context) = ok (stream_agent_events request context secret)

    -- `POST /agent`, with the two context headers and the process's secret.
    unfoldable pub run_agent :
        ℕ → Option String → Option String → String → RunAgentInput → Result (List String)
    unfolding stream_agent_events verify_session_context
    run_agent now encoded_context signature secret request =
        answer request secret
          (verify_session_context lib codec now encoded_context signature secret)
