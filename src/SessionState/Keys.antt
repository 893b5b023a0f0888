-- ===== src/SessionState/Keys.antt =====
-- packages/session_state/session_state/key_builder.py, and the key that the agent service adds. A key is the list of its code points.
pub mod Quote
pub mod Injective
use user_delegated_auth_serv.Base.{
  ℕ, String, Option, none, some, List, [], ◌∷◌, ◌++◌, Result, ok, err, value_error, guard, ◌>>=◌,
  ◌>>◌, is_empty, not,
}
use Prim.Native.String.{◌++◌ as concat}
use Quote.{codes, quote}

unfoldable pub encode_part : String → String → Result (List ℕ)
unfolding quote
encode_part value field_name = do
  guard (not (is_empty value)) (value_error (concat field_name " must not be empty"))
  ok (quote (codes value))

unfoldable pub encode_tenant : Option String → Result (List ℕ)
unfolding encode_part
encode_tenant none = ok (codes "_")
encode_tenant (some tenant_id) = encode_part tenant_id "tenant_id"

unfoldable pub validate_prefix : String → Result (List ℕ)
validate_prefix prefix = do
  guard (not (is_empty prefix)) (value_error "prefix must not be empty")
  ok (codes prefix)

unfoldable pub build_session_key : String → Option String → String → String → Result (List ℕ)
unfolding encode_part encode_tenant validate_prefix
build_session_key prefix tenant_id user_id session_id = do
  head ← validate_prefix prefix
  tenant ← encode_tenant tenant_id
  user ← encode_part user_id "user_id"
  session ← encode_part session_id "session_id"
  ok (
      head
      ++ (codes ":tenant:"
          ++ (tenant ++ (codes ":user:" ++ (user ++ (codes ":session:" ++ session))))))

unfoldable pub build_workflow_key :
    String → Option String → String → String → String → Result (List ℕ)
unfolding build_session_key
build_workflow_key prefix tenant_id user_id session_id workflow_id = do
  session_key ← build_session_key prefix tenant_id user_id session_id
  workflow ← encode_part workflow_id "workflow_id"
  ok (session_key ++ (codes ":workflow:" ++ workflow))

unfoldable pub build_thread_key :
    String → Option String → String → String → String → Result (List ℕ)
unfolding build_session_key
build_thread_key prefix tenant_id user_id session_id thread_id = do
  session_key ← build_session_key prefix tenant_id user_id session_id
  thread ← encode_part thread_id "thread_id"
  ok (session_key ++ (codes ":thread:" ++ thread))

-- `_token_key` of the agent service's store, which has a part of its own; a reference may be empty.
unfoldable pub token_key : String → Option String → String → String → String → Result (List ℕ)
unfolding build_session_key quote
token_key prefix tenant_id user_id session_id token_ref = do
  session_key ← build_session_key prefix tenant_id user_id session_id
  ok (session_key ++ (codes ":token:" ++ quote (codes token_ref)))

unfoldable pub build_session_events_key : String → Option String → String → String → Result (List ℕ)
unfolding build_session_key
build_session_events_key prefix tenant_id user_id session_id = do
  session_key ← build_session_key prefix tenant_id user_id session_id
  ok (session_key ++ codes ":events")

unfoldable pub build_workflow_events_key :
    String → Option String → String → String → String → Result (List ℕ)
unfolding build_workflow_key
build_workflow_events_key prefix tenant_id user_id session_id workflow_id = do
  workflow_key ← build_workflow_key prefix tenant_id user_id session_id workflow_id
  ok (workflow_key ++ codes ":events")
