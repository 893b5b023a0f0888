-- ===== src/AgUiGateway/Frames.antt =====
-- services/ag_ui_gateway/ag_ui_gateway/sse.py: what of a run reaches the browser.
use mathlib.Core.List.{append_assoc}
use user_delegated_auth_serv.Base.{
  String, ◌≡◌, refl, sym, ◌∙◌, Bool, true, false, ◌&&◌, Option, none, some, List, [], ◌∷◌, ◌++◌,
  map, Exception, mem, All, All-append, arith, Bool-cases, inl, inr,
}
use user_delegated_auth_serv.Json.{Json, Fields, get}
use user_delegated_auth_serv.Json.Strip.{
  IsPublic, HasPublic, HasPublic-weaken, strip_fields, strip_keys, strip_fields-HasPublic,
  get-strip_fields, map_option,
}
use user_delegated_auth_serv.AgUiGateway.Models.{Python, RunAgentInput}
use user_delegated_auth_serv.AgUiGateway.Client.{Stream}
use user_delegated_auth_serv.AgUiGateway.Sse.{
  keep_chars, frames, browser_event, is_private, has_started, on_failure, browser_private_keys,
  run_error, run_started, is_started,
}
use user_delegated_auth_serv.AgUiGateway.Ascii.{
  IsAsciiCase, is_ascii, ascii_lower, ascii_alnum, spelling, is_private_of_ascii,
}

-- An ASCII key that spells a private name, with any capitals and signs between its letters.
abbrev pub spells_private : String → Bool
spells_private key = is_ascii key && mem (spelling key) browser_private_keys

module _ (python : Python) (case : IsAsciiCase python) (request : RunAgentInput) where
  spells_private-is_private :
      (key : String) → spells_private key ≡ true → is_private python key ≡ true
  spells_private-is_private key h = ground (arith, is_private_of_ascii python case key)

  browser_events-HasPublic :
      (events : List Fields) → All (HasPublic spells_private) (map (browser_event python) events)
  unfolding browser_event
  browser_events-HasPublic [] = tt
  browser_events-HasPublic (event ∷ rest) = (
    HasPublic-weaken (is_private python) spells_private spells_private-is_private
        (strip_fields (is_private python) event) (strip_fields-HasPublic (is_private python) event),
    browser_events-HasPublic rest,
  )

  on_failure-HasPublic :
      (started : Bool) (failure : Option Exception)
      → All (HasPublic spells_private) (on_failure python request started failure)
  unfolding IsPublic keep_chars is_ascii ascii_lower ascii_alnum browser_private_keys
  on_failure-HasPublic started none = tt
  on_failure-HasPublic true (some e) = ((refl, tt, (refl, tt, (refl, tt, tt))), tt)
  on_failure-HasPublic false (some e) =
      ((refl, tt, (refl, tt, (refl, tt, tt))), ((refl, tt, (refl, tt, (refl, tt, tt))), tt))

  -- No frame has, at any depth, an ASCII key that spells the name of a credential, a token or an
  -- identity, whatever its capitals and the signs between its letters, when `lower` and `isalnum` act on ASCII
  -- as they do in Python.
  pub frames-HasPublic :
      (stream : Stream Fields) → All (HasPublic spells_private) (frames python request stream)
  unfolding frames
  frames-HasPublic stream =
      All-append _ _ _ (browser_events-HasPublic stream.events)
        (on_failure-HasPublic (has_started python stream.events) stream.failure)

  type_is_shown : is_private python "type" ≡ false
  unfolding keep_chars is_ascii ascii_lower ascii_alnum browser_private_keys
  type_is_shown = is_private_of_ascii python case "type" refl ∙ refl

  is_started_stripped :
      (o : Option Json)
      → is_started python (map_option (strip_keys (is_private python)) o) ≡ is_started python o
  unfolding strip_keys
  is_started_stripped none = refl
  is_started_stripped (some (Json.str s)) = refl
  is_started_stripped (some v) = refl

  -- A frame has the type of its event.
  is_started_kept :
      (event : Fields)
      → is_started python (get "type" (browser_event python event))
        ≡ is_started python (get "type" event)
  unfolding browser_event
  is_started_kept event =
      let shown : is_private python "type" ≡ false = type_is_shown in
      rw (get-strip_fields (is_private python) "type" event, shown)
        (is_started_stripped (get "type" event))

  has_started_kept :
      (events : List Fields)
      → has_started python (map (browser_event python) events) ≡ has_started python events
  unfolding browser_event
  has_started_kept [] = refl
  has_started_kept (event ∷ rest) = rw (is_started_kept event, has_started_kept rest) refl

  has_started-append :
      (before rest : List Fields)
      → has_started python rest ≡ true
      → has_started python (before ++ rest) ≡ true
  has_started-append [] rest h = h
  has_started-append (event ∷ before) rest h = ground (arith, has_started-append before rest h)

  -- When the agent service fails, the last frame is an error, and one of the frames before it has
  -- started the run.
  pub frames-of_failure :
      (stream : Stream Fields) (e : Exception)
      → stream.failure ≡ some e
      → (before : List Fields) × (frames python request stream
          ≡ before ++ (run_error python e ∷ []))
        × (has_started python before ≡ true)
  unfolding frames
  frames-of_failure stream e h =
      let shown = map (browser_event python) stream.events in
      elim (Bool-cases (has_started python stream.events)) [
        | inl started ↦ (shown, rw (h, started) refl, has_started_kept stream.events ∙ started)
        | inr fresh ↦ (
          shown ++ (run_started python request ∷ []),
          rw (h, fresh) (sym (append_assoc shown _ _)),
          has_started-append shown (run_started python request ∷ []) refl,
        )
      ]
