-- ===== src/SessionState/InternalAuth/Reader.antt =====
-- packages/session_state/session_state/internal_auth.py: what the model `TrustedSessionContext` makes of
-- the members of a JSON object, by the fields that it declares.
use user_delegated_auth_serv.Base.{
  ℕ, String, ◌≡◌, refl, Option, none, some, List, [], ◌∷◌, Result, ok, err, ◌>>=◌, ◌>>◌, guard, any,
  not, mem, value_error,
}
use user_delegated_auth_serv.Externals.{Digests}
use user_delegated_auth_serv.Json.{
  Json, null, str, arr, Items, nil, cons, Fields, get, keys, strings, nullable,
}
use user_delegated_auth_serv.SessionState.InternalAuth.{
  TrustedSessionContext, new_trusted_context, trusted_context_payload, optional_strings,
}

abbrev refused {ℓ} : {A : Type ℓ} → Result A
refused = err (value_error "validation error")

-- A field `str`
abbrev text_field : Option Json → Result String
text_field (some (str s)) = ok s
text_field _ = refused

-- A field `str | None = None`
abbrev optional_text_field : Option Json → Result (Option String)
optional_text_field none = ok none
optional_text_field (some null) = ok none
optional_text_field (some (str s)) = ok (some s)
optional_text_field _ = refused

texts : Items → Result (List String)
texts nil = ok []
texts (cons (str s) items) = texts items >>= λ rest. ok (s ∷ rest)
texts (cons _ items) = refused

-- A field `list[str] = []`
abbrev texts_field : Option Json → Result (List String)
texts_field none = ok []
texts_field (some (arr items)) = texts items
texts_field _ = refused

-- A field `list[str] | None = None`
abbrev optional_texts_field : Option Json → Result (Option (List String))
optional_texts_field none = ok none
optional_texts_field (some null) = ok none
optional_texts_field (some (arr items)) = texts items >>= λ values. ok (some values)
optional_texts_field _ = refused

abbrev some_or_refused : Option ℕ → Result ℕ
some_or_refused none = refused
some_or_refused (some instant) = ok instant

-- A field `datetime`, of a text that is read as an instant
abbrev instant_field : (String → Option ℕ) → Option Json → Result ℕ
instant_field instant_of (some (str s)) = some_or_refused (instant_of s)
instant_field instant_of _ = refused

abbrev field_names : List String
field_names =
    "user_id" ∷ "session_id" ∷ "tenant_id" ∷ "token_ref" ∷ "token_scopes" ∷ "allowed_tools"
    ∷ "correlation_id" ∷ "expires_at" ∷ []

-- The context that the members make, with no other members, and the validators.
unfoldable pub context_of_fields : (String → Option ℕ) → Fields → Result TrustedSessionContext
unfolding get keys texts new_trusted_context
context_of_fields instant_of fs = do
  guard (not (any (λ key. not (mem key field_names)) (keys fs)))
      (value_error "extra inputs are not permitted")
  user_id ← text_field (get "user_id" fs)
  session_id ← text_field (get "session_id" fs)
  tenant_id ← optional_text_field (get "tenant_id" fs)
  token_ref ← optional_text_field (get "token_ref" fs)
  token_scopes ← texts_field (get "token_scopes" fs)
  allowed_tools ← optional_texts_field (get "allowed_tools" fs)
  correlation_id ← text_field (get "correlation_id" fs)
  expires_at ← instant_field instant_of (get "expires_at" fs)
  new_trusted_context (record {
    user_id = user_id;
    session_id = session_id;
    tenant_id = tenant_id;
    token_ref = token_ref;
    token_scopes = token_scopes;
    allowed_tools = allowed_tools;
    correlation_id = correlation_id;
    expires_at = expires_at;
  })

optional_text_field-nullable : (o : Option String) → optional_text_field (some (nullable o)) ≡ ok o
optional_text_field-nullable none = refl
optional_text_field-nullable (some s) = refl

texts-strings : (ss : List String) → texts (strings ss) ≡ ok ss
unfolding texts strings
texts-strings [] = refl
texts-strings (s ∷ ss) = rw (texts-strings ss) refl

optional_texts_field-optional_strings :
    (o : Option (List String)) → optional_texts_field (some (optional_strings o)) ≡ ok o
optional_texts_field-optional_strings none = refl
optional_texts_field-optional_strings (some ss) = rw (texts-strings ss) refl

-- The members that the code writes of a context are read as that context.
pub context_of_fields-trusted_context_payload :
    (lib : Digests) (instant_of : String → Option ℕ) (c : TrustedSessionContext)
    → instant_of (lib.isoformat c.expires_at) ≡ some c.expires_at
    → context_of_fields instant_of (trusted_context_payload lib c) ≡ new_trusted_context c
unfolding context_of_fields trusted_context_payload
context_of_fields-trusted_context_payload lib instant_of c e =
    rw
      (
        optional_text_field-nullable c.tenant_id,
        optional_text_field-nullable c.token_ref,
        texts-strings c.token_scopes,
        optional_texts_field-optional_strings c.allowed_tools,
        e,
      )
      refl
