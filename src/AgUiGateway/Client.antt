-- ===== src/AgUiGateway/Client.antt =====
-- services/ag_ui_gateway/ag_ui_gateway/client.py: the events of the agent service's response. What a
-- stream yields is a list, with the exception that ended it, if one did.
use user_delegated_auth_serv.Base.{
  String, Option, none, some, List, [], ◌∷◌, Result, ok, err, Exception, without_prefix, strip,
  rstrip_slash, is_empty, if◌then◌else◌,
}
use user_delegated_auth_serv.Json.{Json, obj, Fields}

pub record Stream (A : Type 0) : Type 0 where
  pub events : List A
  pub failure : Option Exception

abbrev yielding : {A : Type 0} → A → Stream A → Stream A
yielding a rest = record { events = a ∷ rest.events; failure = rest.failure }

-- `base_url or os.getenv("AGENT_SERVICE_URL") or DEFAULT_AGENT_SERVICE_URL`, without its last slashes
abbrev or_else : Option String → String → String
or_else none default = default
or_else (some s) default = if is_empty s then default else s

unfoldable pub configured_url : Option String → Option String → String
unfolding rstrip_slash
configured_url base_url agent_service_url =
    rstrip_slash (or_else base_url (or_else agent_service_url "http://agent-service:8090"))

module _ (loads : String → Result Json) where
  -- An object is yielded, any other value is passed over, and a failure ends the stream.
  abbrev decoded_event : Result Json → Stream Fields → Stream Fields
  decoded_event (err e) rest = record { events = []; failure = some e }
  decoded_event (ok (obj event)) rest = yielding event rest
  decoded_event (ok value) rest = rest

  abbrev event_of_line : Option String → Stream Fields → Stream Fields
  event_of_line none rest = rest
  event_of_line (some payload) rest =
      if is_empty (strip payload) then rest else decoded_event (loads (strip payload)) rest

  -- `_iter_sse_events` over the lines of a response, which the network may cut off.
  unfoldable pub iter_sse_events : List String → Option Exception → Stream Fields
  unfolding without_prefix strip
  iter_sse_events [] cut_off = record { events = []; failure = cut_off }
  iter_sse_events (line ∷ lines) cut_off =
      event_of_line (without_prefix "data:" line) (iter_sse_events lines cut_off)

-- The agent service's answer to `POST /runs/stream`: it cannot be reached or has an error's status,
-- or it is a stream of lines.
pub data Response : Type 0 where
  refused : Exception → Response
  lines : List String → Option Exception → Response

unfoldable pub stream_run : (String → Result Json) → Response → Stream Fields
unfolding iter_sse_events
stream_run loads (refused e) = record { events = []; failure = some e }
stream_run loads (lines ls cut_off) = iter_sse_events loads ls cut_off
