-- ===== src/Supervisor/Network.antt =====
-- What the supervisor sends, in order, with a value or an exception at the end; and the client of the
-- sidecar, packages/observability/observability/sidecar_client.py.
use mathlib.Core.List.{◌++◌ as append}
use user_delegated_auth_serv.Base.{
  ℕ, String, Bool, ◌&&◌, Option, none, some, List, [], ◌∷◌, Result, ok, err, Exception, leb,
  http_error, http_status_error, runtime_error,
}
use user_delegated_auth_serv.Json.{Json, null, str, obj, Fields, end, field}

-- A request to Auth0: a form that is posted, or the record of a user, whose id is quoted in the path.
pub data Auth0Request : Type 0 where
  post_form : (url : String) (form : List (String × String)) → Auth0Request
  get_user : (base : String) (quoted_user_id : List ℕ) (bearer : String) → Auth0Request

pub data Sent : Type 0 where
  to_sidecar : (path : String) (body : Fields) → Sent
  to_auth0 : Auth0Request → Sent

pub record HttpResponse : Type 0 where
  pub status_code : ℕ
  pub text : String
  pub json : Result Json

-- The network: the sidecar's answer after `raise_for_status`, as the exception that it comes to, and
-- Auth0's answer; the ids and instants of new events, by the event's type.
pub record Network : Type 0 where
  pub sidecar : String → Fields → Option Exception
  pub auth0 : Auth0Request → Result HttpResponse
  pub uuid4_hex : String → String
  pub created_at : String → String

-- `httpx` has `raise_for_status` raise unless the status is 2xx.
abbrev pub is_success : HttpResponse → Bool
is_success response = leb 200 response.status_code && leb response.status_code 299

abbrev pub Sending {ℓ} : Type ℓ → Type ℓ
Sending A = Result A × List Sent

abbrev pub after {ℓ} : {B : Type ℓ} → List Sent → Sending B → Sending B
after sent (r, more) = (r, append sent more)

module _ {ℓ κ} {A : Type ℓ} {B : Type κ} where
  infixl 5 ◌>>=◌
  abbrev pub ◌>>=◌ : Sending A → (A → Sending B) → Sending B
  ◌>>=◌ (err e, sent) next = (err e, sent)
  ◌>>=◌ (ok a, sent) next = after sent (next a)

module _ {ℓ} {B : Type ℓ} where
  infixl 5 ◌>>◌
  abbrev pub ◌>>◌ : Sending (Unit {0}) → Sending B → Sending B
  check >> rest = check >>= λ nothing. rest

abbrev pub lift {ℓ} : {A : Type ℓ} → Result A → Sending A
lift r = (r, [])

module _ (network : Network) where
  abbrev posted : Option Exception → Result (Unit {0})
  posted none = ok tt
  posted (some e) = err e

  -- `emit_trace`
  unfoldable pub emit_trace : String → Fields → Sending (Unit {0})
  emit_trace source_component event =
      let body = field "source_component" (str source_component) (field "event" (obj event) end) in
      (posted (network.sidecar "/v1/traces" body), to_sidecar "/v1/traces" body ∷ [])

  -- `emit_log`, which the supervisor calls without a trace's id.
  unfoldable pub emit_log : String → String → String → Fields → String → Sending (Unit {0})
  emit_log source_component level message attributes agentic_span_id =
      let body = field "source_component" (str source_component) (
        field "level" (str level) (
          field "message" (str message) (
            field "attributes" (obj attributes)
              (field "trace_id" null (field "agentic_span_id" (str agentic_span_id) end))))) in
      (posted (network.sidecar "/v1/logs" body), to_sidecar "/v1/logs" body ∷ [])

-- `except (httpx.HTTPError, RuntimeError): return`
abbrev pub quietly : Sending (Unit {0}) → Sending (Unit {0})
quietly (err (http_error class_name), sent) = (ok tt, sent)
quietly (err (http_status_error status_code), sent) = (ok tt, sent)
quietly (err (runtime_error text), sent) = (ok tt, sent)
quietly other = other
