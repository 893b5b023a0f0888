-- ===== src/Supervisor/Metadata.antt =====
-- services/supervisor/agent_service_supervisor/routes.py: reading a user's metadata from Auth0.
use Prim.Native.String.{◌++◌}
use user_delegated_auth_serv.Base.{
  String, Option, none, some, List, [], ◌∷◌, Result, ok, err, Exception, external, http_exception,
  strip, is_empty, rstrip_slash, if◌then◌else◌,
}
use user_delegated_auth_serv.Json.{Json, str, obj, Fields, get}
use user_delegated_auth_serv.SessionState.Keys.Quote.{codes, quote}
use user_delegated_auth_serv.TokenBroker.Scopes.{remove_prefix}
use user_delegated_auth_serv.Supervisor.Models.{SupervisorSettings}
use user_delegated_auth_serv.Supervisor.Network.{
  Auth0Request, post_form, get_user, to_auth0, HttpResponse, Network, is_success, Sending, ◌>>=◌,
  lift,
}
use user_delegated_auth_serv.Supervisor.Persona.{metadata_string_list, stripped, or_else}

abbrev string_or_502 : Option Json → Result String
string_or_502 (some (str s)) =
    if is_empty s
    then err (http_exception 502 "Auth0 token response missing required field")
    else ok s
string_or_502 _ = err (http_exception 502 "Auth0 token response missing required field")

unfoldable pub required_auth0_string : Fields → String → Result String
unfolding get
required_auth0_string payload key = string_or_502 (get key payload)

abbrev setting_required : String → Exception
setting_required name = http_exception 500 (name ++ " is required for Auth0 metadata loading")

unfoldable pub required_auth0_management_setting : Option String → String → Result String
unfolding strip
required_auth0_management_setting none name = err (setting_required name)
required_auth0_management_setting (some value) name =
    if is_empty (strip value) then err (setting_required name) else ok (strip value)

abbrev bare_domain : Result String → Result String
bare_domain (err e) = err e
bare_domain (ok domain) =
    ok (rstrip_slash (remove_prefix "http://" (remove_prefix "https://" domain)))

unfoldable pub auth0_domain : Option String → Result String
unfolding required_auth0_management_setting remove_prefix rstrip_slash
auth0_domain value = bare_domain (required_auth0_management_setting value "AUTH0_DOMAIN")

-- The first of the keys whose value is a text that is not blank.
abbrev first_text : Fields → List String → String → String
first_text payload [] default = default
first_text payload (key ∷ keys) default = elim (stripped (get key payload)) [
  | some s ↦ s
  | none ↦ first_text payload keys default
]

abbrev detail_of : Result Json → String → String
detail_of (ok (obj payload)) text =
    first_text payload ("error_description" ∷ "message" ∷ "error" ∷ []) text
detail_of _ text = text

unfoldable pub auth0_error_detail : HttpResponse → String
unfolding strip get
auth0_error_detail response = detail_of response.json response.text

-- An answer's payload, which the code takes for an object, once its status is a success.
abbrev as_fields : Json → Result Fields
as_fields (obj fs) = ok fs
as_fields v = err (external "AttributeError" "the payload has no attribute 'get'")

abbrev payload_of : Result Json → Result Fields
payload_of (err e) = err e
payload_of (ok v) = as_fields v

abbrev successful : Result HttpResponse → Result Fields
successful (err e) = err e
successful (ok response) =
    if is_success response
    then payload_of response.json
    else err (http_exception response.status_code (auth0_error_detail response))

abbrev missing_metadata : Exception
missing_metadata = http_exception 403 "Auth0 user metadata is missing app_metadata.magnum_opus"

abbrev object_or_403 : Option Json → Result Fields
object_or_403 (some (obj fs)) = ok fs
object_or_403 _ = err missing_metadata

abbrev magnum_opus : Result Fields → Result Fields
magnum_opus (err e) = err e
magnum_opus (ok app_metadata) = object_or_403 (get "magnum_opus" app_metadata)

unfoldable pub required_metadata_string_list : Fields → String → Result (List String)
unfolding metadata_string_list
required_metadata_string_list metadata key = elim (metadata_string_list metadata key) [
  | [] ↦ err (
      http_exception 403
        ("Auth0 user metadata field app_metadata.magnum_opus." ++ (key ++ " is required")))
  | value ∷ values ↦ ok (value ∷ values)
]

module _ (network : Network) (settings : SupervisorSettings) where
  abbrev ask : Auth0Request → Sending Fields
  ask request = (successful (network.auth0 request), to_auth0 request ∷ [])

  -- `_load_auth0_user_metadata`
  unfoldable pub load_auth0_user_metadata : String → Sending Fields
  unfolding or_else auth0_domain auth0_error_detail required_auth0_string quote
  load_auth0_user_metadata user_id = do
    domain ← lift (auth0_domain settings.auth0_domain)
    client_id ← lift (
        required_auth0_management_setting settings.auth0_management_client_id
          "AUTH0_MANAGEMENT_CLIENT_ID")
    client_secret ← lift (
        required_auth0_management_setting settings.auth0_management_client_secret
          "AUTH0_MANAGEMENT_CLIENT_SECRET")
    let audience = or_else settings.auth0_management_audience ("https://" ++ (domain ++ "/api/v2/"))
    management_payload ← ask (
        post_form ("https://" ++ (domain ++ "/oauth/token")) (
          ("grant_type", "client_credentials")
          ∷ ("client_id", client_id)
          ∷ ("client_secret", client_secret)
          ∷ ("audience", audience)
          ∷ ("scope", "read:users read:users_app_metadata")
          ∷ []))
    management_token ← lift (required_auth0_string management_payload "access_token")
    user_payload ← ask (
        get_user ("https://" ++ (domain ++ "/api/v2/users/")) (quote (codes user_id))
          ("Bearer " ++ management_token))
    lift (magnum_opus (object_or_403 (get "app_metadata" user_payload)))
