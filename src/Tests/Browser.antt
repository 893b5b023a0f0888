-- ===== src/Tests/Browser.antt =====
-- The AG-UI gateway's frames for a run that leaks a token and then fails.
use user_delegated_auth_serv.Base.{
  ◌≡◌, refl, true, some, List, [], ◌∷◌, ◌++◌, All, Exception, external,
}
use user_delegated_auth_serv.Json.{str, Fields, end, field}
use user_delegated_auth_serv.Json.Strip.{HasPublic}
use user_delegated_auth_serv.AgUiGateway.Models.{Python, RunAgentInput}
use user_delegated_auth_serv.AgUiGateway.Client.{Stream}
use user_delegated_auth_serv.AgUiGateway.Sse.{frames, has_started, run_error}
use user_delegated_auth_serv.AgUiGateway.Ascii.{IsAsciiCase, ascii_lower, ascii_alnum}
use user_delegated_auth_serv.AgUiGateway.Frames.{
  spells_private, frames-HasPublic, frames-of_failure,
}

abbrev python : Python
python = record {
  lower = ascii_lower;
  is_alnum = ascii_alnum;
  str_of = λ v. "value";
  str_exception = λ e. "";
}

python-IsAsciiCase : IsAsciiCase python
python-IsAsciiCase = record { lower_of_ascii = λ s h. refl; is_alnum_of_ascii = λ c h. refl }

abbrev run : RunAgentInput
run = record { thread_id = "thread-1"; run_id = "run-1"; messages = []; state = end }

abbrev cut_off : Exception
cut_off = external "ReadError" ""

abbrev stream : Stream Fields
stream = record {
  events = field "type" (str "CUSTOM") (field "Access-Token" (str "eyJ") end) ∷ [];
  failure = some cut_off;
}

-- The key is dropped, and the run is started before it fails.
frames_shown :
    frames python run stream
    ≡ field "type" (str "CUSTOM") end
      ∷ field "type"
          (str "RUN_STARTED")
          (field "threadId" (str "thread-1") (field "runId" (str "run-1") end))
      ∷ field "type"
          (str "RUN_ERROR")
          (field "message" (str "ReadError") (field "code" (str "AGENT_SERVICE_ERROR") end))
      ∷ []
unfolding frames ascii_lower ascii_alnum
frames_shown = refl

frames-HasPublic_example : All (HasPublic spells_private) (frames python run stream)
frames-HasPublic_example = frames-HasPublic python python-IsAsciiCase run stream

frames-of_failure_example :
    (before : List Fields) × (frames python run stream ≡ before ++ (run_error python cut_off ∷ []))
    × (has_started python before ≡ true)
frames-of_failure_example = frames-of_failure python python-IsAsciiCase run stream cut_off refl
