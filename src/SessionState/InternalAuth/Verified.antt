-- ===== src/SessionState/InternalAuth/Verified.antt =====
-- When a signed context is trusted, and that the headers which a service signs are.
use user_delegated_auth_serv.Base.{
  ℕ, ◌<◌, String, ◌≡◌, refl, sym, ◌∙◌, ◌↔◌, Bool, true, false, Option, none, some, ok, arith,
  Option-cases, inl, inr, is_empty, is_empty-append, not, not-eq-true, guard, guard-eq-ok,
  >>-eq-ok_value, ◌>>◌, internal_auth_error, eq_iff, eq_refl,
}
use user_delegated_auth_serv.Externals.{Digests}
use user_delegated_auth_serv.Json.{Fields, obj}
use user_delegated_auth_serv.Json.Dumps.{dumps}
use user_delegated_auth_serv.SessionState.InternalAuth.Reader.{
  context_of_fields, context_of_fields-trusted_context_payload,
}
use user_delegated_auth_serv.SessionState.InternalAuth.{
  TrustedSessionContext, ContextCodec, new_trusted_context, trusted_context_payload,
  sign_session_context, encode_session_context, signed_session_context_headers,
  verify_session_context, verify_present,
}

dumps_obj-ne-empty : (ascii : Bool) (fs : Fields) → is_empty (dumps ascii (obj fs)) ≡ false
unfolding dumps
dumps_obj-ne-empty ascii fs = is_empty-append "{" _ refl

module _ (lib : Digests) (codec : ContextCodec) where
  open codec use {urlsafe_b64decode, model_validate_json}

  -- The headers carry a text and its digest under the secret; the text decodes to the context,
  -- which has not run out.
  pub record IsTrusted (now : ℕ) (encoded_context signature : Option String) (secret : String)
      (context : TrustedSessionContext) : Type 0 where
    pub encoded : String
    pub text : String
    pub carried : encoded_context ≡ some encoded
    pub encoded_set : is_empty encoded ≡ false
    pub secret_set : is_empty secret ≡ false
    pub signed : signature ≡ some (lib.hmac_hexdigest secret encoded)
    pub signature_set : is_empty (lib.hmac_hexdigest secret encoded) ≡ false
    pub decodes : urlsafe_b64decode encoded ≡ some text
    pub parses : model_validate_json text ≡ ok context
    pub live : now < context.expires_at

  module _ (now : ℕ) (secret : String) (context : TrustedSessionContext) where
    present_sound :
        (encoded signature : String)
        → verify_present lib codec now encoded signature secret ≡ ok context
        → IsTrusted now (some encoded) (some signature) secret context
    unfolding sign_session_context
    present_sound encoded signature e = elim (Option-cases (urlsafe_b64decode encoded)) [
      | inl no_text ↦ absurd (ground arith)
      | inr (text, decodes) ↦ record {
        encoded = encoded;
        text = text;
        carried = refl;
        encoded_set = ground arith;
        secret_set = ground arith;
        signed = ground (arith, eq_iff signature (lib.hmac_hexdigest secret encoded));
        signature_set = ground (arith, eq_iff signature (lib.hmac_hexdigest secret encoded));
        decodes = decodes;
        parses = ground arith;
        live = ground arith;
      }
    ]

    verify_sound :
        (encoded_context signature : Option String)
        → verify_session_context lib codec now encoded_context signature secret ≡ ok context
        → IsTrusted now encoded_context signature secret context
    unfolding verify_session_context
    verify_sound none none e = cc
    verify_sound none (some s) e = cc
    verify_sound (some x) none e = cc
    verify_sound (some x) (some s) e = present_sound x s e

    verify_complete :
        (encoded_context signature : Option String)
        → IsTrusted now encoded_context signature secret context
        → verify_session_context lib codec now encoded_context signature secret ≡ ok context
    unfolding verify_session_context
    verify_complete x s h =
        rw (h.carried, h.signed, verify_session_context)
          (simp (h.encoded_set, h.secret_set, h.signature_set, eq_refl, h.decodes, h.parses)
            (ground arith))

    -- A context is trusted exactly when the headers carry a text that decodes to it, signed under
    -- the secret, and it has not run out.
    pub verify_session_context-eq-ok_iff :
        (encoded_context signature : Option String)
        → (verify_session_context lib codec now encoded_context signature secret ≡ ok context)
          ↔ IsTrusted now encoded_context signature secret context
    verify_session_context-eq-ok_iff x s = (verify_sound x s, verify_complete x s)

  -- What the code relies on of `base64`, `hmac` and pydantic: a text decodes to itself, neither an
  -- encoding nor a digest is empty, an instant is read as it was written, and the JSON that is sent is
  -- read member by member, by the fields that the model declares.
  pub record CodecLaws (c : TrustedSessionContext) : Type 0 where
    pub b64decode_b64encode : (t : String) → urlsafe_b64decode (codec.urlsafe_b64encode t) ≡ some t
    pub b64encode_set :
        (t : String) → is_empty t ≡ false → is_empty (codec.urlsafe_b64encode t) ≡ false
    pub digest_set : (s t : String) → is_empty (lib.hmac_hexdigest s t) ≡ false
    pub instant_of : String → Option ℕ
    pub instant_of-isoformat : instant_of (lib.isoformat c.expires_at) ≡ some c.expires_at
    pub parse_dumped :
        model_validate_json (dumps true (obj (trusted_context_payload lib c)))
        ≡ context_of_fields instant_of (trusted_context_payload lib c)

  encoded_set :
      (c : TrustedSessionContext)
      → CodecLaws c
      → is_empty (encode_session_context lib codec c) ≡ false
  unfolding encode_session_context
  encoded_set c laws =
      laws.b64encode_set _ (dumps_obj-ne-empty true (trusted_context_payload lib c))

  encoded_decodes :
      (c : TrustedSessionContext)
      → CodecLaws c
      → urlsafe_b64decode (encode_session_context lib codec c)
        ≡ some (dumps true (obj (trusted_context_payload lib c)))
  unfolding encode_session_context
  encoded_decodes c laws = laws.b64decode_b64encode _

  signed_lem :
      (c : TrustedSessionContext) (secret : String)
      → signed_session_context_headers lib codec c secret ≡ (
          guard (not (is_empty secret)) (internal_auth_error "internal auth secret is required")
          >> ok (
            encode_session_context lib codec c,
            lib.hmac_hexdigest secret (encode_session_context lib codec c),
          ))
  unfolding signed_session_context_headers
  signed_lem c secret = ground arith

  signed_sound :
      (c : TrustedSessionContext) (secret : String) (headers : String × String)
      → signed_session_context_headers lib codec c secret ≡ ok headers
      → (is_empty secret ≡ false)
        × (headers ≡ (
          encode_session_context lib codec c,
          lib.hmac_hexdigest secret (encode_session_context lib codec c),
        ))
  signed_sound c secret headers e =
      let (set, both) =
        (>>-eq-ok_value (guard (not (is_empty secret)) _) _ headers).0
          (sym (signed_lem c secret) ∙ e) in
      (not-eq-true _ (guard-eq-ok _ _ set), both)

  -- The headers signed for a valid context that has not run out are trusted under the same secret,
  -- and yield that context, when base64 decodes what it encodes, neither an encoding nor a digest is
  -- empty, an instant is read as it was written, and the JSON reader gives the model's fields the
  -- members of the object that was written.
  pub verify-signed_session_context_headers :
      (now : ℕ) (secret : String) (c : TrustedSessionContext) (headers : String × String)
      → CodecLaws c
      → new_trusted_context c ≡ ok c
      → now < c.expires_at
      → signed_session_context_headers lib codec c secret ≡ ok headers
      → verify_session_context lib codec now (some headers.0) (some headers.1) secret ≡ ok c
  verify-signed_session_context_headers now secret c headers laws valid live e =
      let (secret_set, both) = signed_sound c secret headers e in
      let trusted : IsTrusted now (some (encode_session_context lib codec c))
          (some (lib.hmac_hexdigest secret (encode_session_context lib codec c))) secret c =
        record {
          encoded = encode_session_context lib codec c;
          text = dumps true (obj (trusted_context_payload lib c));
          carried = refl;
          encoded_set = encoded_set c laws;
          secret_set = secret_set;
          signed = refl;
          signature_set = laws.digest_set secret _;
          decodes = encoded_decodes c laws;
          parses =
              laws.parse_dumped
              ∙ context_of_fields-trusted_context_payload lib laws.instant_of c
                  laws.instant_of-isoformat
              ∙ valid;
          live = live;
        } in
      rw both (verify_complete now secret c _ _ trusted)
