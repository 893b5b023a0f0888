-- ===== src/SessionState/InternalAuth.antt =====
-- packages/session_state/session_state/internal_auth.py
pub mod Reader
pub mod Verified
use user_delegated_auth_serv.Base.{
  ℕ, String, true, not, ◌&&◌, Option, none, some, List, Result, ok, err, ◌>>=◌, ◌>>◌, guard, leb,
  any, is_empty, sorted_set, internal_auth_error, value_error, ◌==◌,
}
use user_delegated_auth_serv.Externals.{Digests}
use user_delegated_auth_serv.Json.{Json, null, str, arr, obj, Fields, end, field, strings, nullable}
use user_delegated_auth_serv.Json.Dumps.{dumps}
use user_delegated_auth_serv.WorkflowCore.Validation.{min_length_1, opt_min_length_1}

pub record TrustedSessionContext : Type 0 where
  pub user_id : String
  pub session_id : String
  pub tenant_id : Option String
  pub token_ref : Option String
  pub token_scopes : List String
  pub allowed_tools : Option (List String)
  pub correlation_id : String
  pub expires_at : ℕ

unfoldable pub normalize_token_scopes : List String → Result (List String)
unfolding sorted_set
normalize_token_scopes value = do
  guard (not (any is_empty value)) (value_error "token scopes must be non-empty strings")
  ok (sorted_set value)

unfoldable pub normalize_allowed_tools : Option (List String) → Result (Option (List String))
unfolding sorted_set
normalize_allowed_tools none = ok none
normalize_allowed_tools (some value) = do
  guard (not (any is_empty value)) (value_error "allowed tools must be non-empty strings")
  ok (some (sorted_set value))

unfoldable pub new_trusted_context : TrustedSessionContext → Result TrustedSessionContext
unfolding normalize_token_scopes normalize_allowed_tools min_length_1
new_trusted_context c = do
  min_length_1 c.user_id
  min_length_1 c.session_id
  opt_min_length_1 c.tenant_id
  opt_min_length_1 c.token_ref
  scopes ← normalize_token_scopes c.token_scopes
  tools ← normalize_allowed_tools c.allowed_tools
  min_length_1 c.correlation_id
  ok (record c { token_scopes = scopes; allowed_tools = tools })

-- What the module takes from `base64` and from pydantic's JSON reader.
pub record ContextCodec : Type 0 where
  -- `urlsafe_b64encode` of the text's bytes, without its `=` signs
  pub urlsafe_b64encode : String → String
  -- `_base64url_decode(value).decode("utf-8")`; `none` where it raises
  pub urlsafe_b64decode : String → Option String
  -- `TrustedSessionContext.model_validate_json`
  pub model_validate_json : String → Result TrustedSessionContext

abbrev pub optional_strings : Option (List String) → Json
optional_strings none = null
optional_strings (some ss) = arr (strings ss)

module _ (lib : Digests) where
  unfoldable pub trusted_context_payload : TrustedSessionContext → Fields
  trusted_context_payload c = field "user_id" (str c.user_id) (
      field "session_id" (str c.session_id) (
        field "tenant_id" (nullable c.tenant_id) (
          field "token_ref" (nullable c.token_ref) (
            field "token_scopes" (arr (strings c.token_scopes)) (
              field "allowed_tools" (optional_strings c.allowed_tools) (
                field "correlation_id" (str c.correlation_id)
                  (field "expires_at" (str (lib.isoformat c.expires_at)) end)))))))

  unfoldable pub sign_session_context : String → String → Result String
  sign_session_context encoded_context secret = do
    guard (not (is_empty secret)) (internal_auth_error "internal auth secret is required")
    ok (lib.hmac_hexdigest secret encoded_context)

module _ (lib : Digests) (codec : ContextCodec) where
  unfoldable pub encode_session_context : TrustedSessionContext → String
  unfolding trusted_context_payload
  encode_session_context c =
      codec.urlsafe_b64encode (dumps true (obj (trusted_context_payload lib c)))

  -- The two headers: the encoded context and its signature.
  unfoldable pub signed_session_context_headers :
      TrustedSessionContext → String → Result (String × String)
  unfolding encode_session_context sign_session_context
  signed_session_context_headers c secret = do
    signature ← sign_session_context lib (encode_session_context c) secret
    ok (encode_session_context c, signature)

  abbrev decoded_text : Option String → Result String
  decoded_text none = err (internal_auth_error "invalid session context encoding")
  decoded_text (some text) = ok text

  abbrev verify_present : ℕ → String → String → String → Result TrustedSessionContext
  verify_present now encoded_context signature secret = do
    guard (not (is_empty encoded_context) && not (is_empty signature))
        (internal_auth_error "signed session context is required")
    expected ← sign_session_context lib encoded_context secret
    guard (signature == expected) (internal_auth_error "invalid session context signature")
    decoded ← decoded_text (codec.urlsafe_b64decode encoded_context)
    context ← codec.model_validate_json decoded
    guard (not (leb context.expires_at now))
        (internal_auth_error "signed session context has expired")
    ok context

  unfoldable pub verify_session_context :
      ℕ → Option String → Option String → String → Result TrustedSessionContext
  unfolding sign_session_context
  verify_session_context now (some encoded_context) (some signature) secret =
      verify_present now encoded_context signature secret
  verify_session_context now _ _ secret =
      err (internal_auth_error "signed session context is required")
