-- ===== src/Tests/Gateway.antt =====
-- Tests of the egress gateway and of the signed context.
use text.Mathlib.TextLemmas.{cons-append, nil-append}
use user_delegated_auth_serv.Base.{
  String, ◌≡◌, refl, ◌↔◌, arith, Result, ok, some, is_empty-append, false, true,
}
use user_delegated_auth_serv.SessionState.InternalAuth.{
  verify_session_context, signed_session_context_headers, new_trusted_context,
}
use user_delegated_auth_serv.SessionState.InternalAuth.Verified.{
  IsTrusted, CodecLaws, verify_session_context-eq-ok_iff, verify-signed_session_context_headers,
}
use user_delegated_auth_serv.EgressGateway.Authorization.{
  assert_grant_matches_request, derive_outbound_request, outbound_response,
}
use user_delegated_auth_serv.EgressGateway.Authorization.Required.{
  Matches, assert_grant_matches_request-eq-ok_iff,
}
use user_delegated_auth_serv.EgressGateway.Handler.{McpCall, CallToolResult, egress_mcp}
use user_delegated_auth_serv.EgressGateway.Handler.Calls.{IsCareful, egress_mcp-IsCareful}
use user_delegated_auth_serv.Json.{null, nil, bool, int, float, str, pos, Float}
use user_delegated_auth_serv.Json.Equality.{json_eq}
use user_delegated_auth_serv.Tests.Data.{
  context, digests, codec, env, restart_grant, restart_request, value_or,
}

assert_grant_matches_request_example :
    (assert_grant_matches_request 100 restart_request restart_grant context ≡ ok tt)
    ↔ Matches 100 restart_request restart_grant context
assert_grant_matches_request_example =
    assert_grant_matches_request-eq-ok_iff 100 restart_request restart_grant context

derived_lem :
    derive_outbound_request digests "secret" 100 restart_request context
    ≡ ok (outbound_response restart_request)
unfolding derive_outbound_request user_delegated_auth_serv.Json.get
derived_lem = refl

abbrev client : McpCall → Result CallToolResult
client call =
    ok (record { is_error = false; contents = null; structured_content = null; content = nil })

egress_mcp_example :
    IsCareful client digests codec env 100
      (some "bctx")
      (some "hmac")
      restart_request
      (egress_mcp client digests codec env 100 (some "bctx") (some "hmac") restart_request).1
egress_mcp_example =
    egress_mcp-IsCareful client digests codec env 100 (some "bctx") (some "hmac") restart_request

verify_session_context_example :
    (verify_session_context digests codec 100 (some "bctx") (some "hmac") "secret" ≡ ok context)
    ↔ IsTrusted digests codec 100 (some "bctx") (some "hmac") "secret" context
verify_session_context_example =
    verify_session_context-eq-ok_iff digests codec 100 "secret" context (some "bctx") (some "hmac")

context_laws : CodecLaws digests codec context
unfolding user_delegated_auth_serv.SessionState.InternalAuth.Reader.context_of_fields
    user_delegated_auth_serv.SessionState.InternalAuth.trusted_context_payload
    user_delegated_auth_serv.Json.strings
context_laws = record {
  b64decode_b64encode = λ t. rw (cons-append, nil-append) refl;
  b64encode_set = λ t h. is_empty-append "b" t refl;
  digest_set = λ s t. refl;
  instant_of = λ s. some 5000;
  instant_of-isoformat = refl;
  parse_dumped = refl;
}

abbrev headers : String × String
headers = value_or ("", "") (signed_session_context_headers digests codec context "secret")

headers_lem : signed_session_context_headers digests codec context "secret" ≡ ok headers
unfolding signed_session_context_headers
headers_lem = refl

context_lem : new_trusted_context context ≡ ok context
unfolding new_trusted_context
context_lem = refl

verify_signed_example :
    verify_session_context digests codec 100 (some headers.0) (some headers.1) "secret" ≡ ok context
verify_signed_example =
    verify-signed_session_context_headers digests codec 100 "secret" context headers context_laws
      context_lem (omega arith) headers_lem

abbrev one : Float
one = record { text = "1.0"; numerator = pos 1; denominator = 1 }

abbrev zero : Float
zero = record { text = "0.0"; numerator = pos 0; denominator = 1 }

abbrev minus_zero : Float
minus_zero = record { text = "-0.0"; numerator = pos 0; denominator = 1 }

-- `1 == 1.0`, `True == 1.0` and `0.0 == -0.0`, but not `1.0 == "1.0"`
numbers_alike :
    (json_eq (int (pos 1)) (float one) ≡ true)
    × (json_eq (bool true) (float one) ≡ true)
    × (json_eq (float zero) (float minus_zero) ≡ true)
    × (json_eq (float one) (str "1.0") ≡ false)
unfolding json_eq
numbers_alike = (refl, refl, refl, refl)
