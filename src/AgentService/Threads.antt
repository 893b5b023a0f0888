-- ===== src/AgentService/Threads.antt =====
-- services/agent_service/agent_service/app.py: the handlers of `POST /threads` and
-- `GET /threads/{thread_id}`.
use Prim.Native.String.{◌++◌}
use user_delegated_auth_serv.Base.{
  ℕ, ◌+◌, String, ◌≡◌, refl, ap, Option, none, some, List, [], ◌∷◌, Result, ok, err, http_exception,
  ◌⊎◌, inl, inr,
}
use user_delegated_auth_serv.Json.{arr, strings, Fields, put}
use user_delegated_auth_serv.SessionState.InternalAuth.{
  TrustedSessionContext, verify_session_context,
}
use user_delegated_auth_serv.EgressGateway.Handler.{internal_auth_secret}
use user_delegated_auth_serv.AgentService.Models.{ThreadCreateRequest, ThreadRecord}
use user_delegated_auth_serv.AgentService.Payloads.{thread_state_payload}
use user_delegated_auth_serv.AgentService.Store as Stores
use user_delegated_auth_serv.AgentService.Store.{present}
use user_delegated_auth_serv.AgentService.World.{
  World, Outside, Action, continue, ◌>>=◌, read_clock,
}
use user_delegated_auth_serv.AgentService.Approval.{trusted_context, or_401}

-- `_request_with_trusted_context`, of a request for a thread
unfoldable pub with_trusted_context :
    TrustedSessionContext → ThreadCreateRequest → ThreadCreateRequest
with_trusted_context context request = record request {
  allowed_tools = context.allowed_tools;
  auth_context_ref = none;
  session_id = context.session_id;
  tenant_id = context.tenant_id;
  token_ref = context.token_ref;
  token_scopes = context.token_scopes;
  user_id = context.user_id;
}

abbrev put_tools : Option (List String) → Fields → Fields
put_tools none state = state
put_tools (some tools) state = put "allowed_tools" (arr (strings tools)) state

abbrev put_scopes : List String → Fields → Fields
put_scopes [] state = state
put_scopes (scope ∷ scopes) state = put "token_scopes" (arr (strings (scope ∷ scopes))) state

unfoldable pub thread_create_state : ThreadCreateRequest → Fields
unfolding put strings
thread_create_state request =
    put_scopes request.token_scopes (put_tools request.allowed_tools request.state)

module _ (outside : Outside) where
  abbrev register_found :
      ThreadCreateRequest → Option String → Option String → Action (Option String)
  register_found request (some auth_context_ref) (some token_ref) w = (
    ok request.token_ref,
    record w {
      store =
          Stores.register_auth_context
            (record {
              user_id = request.user_id;
              session_id = request.session_id;
              tenant_id = request.tenant_id;
              token_ref = token_ref;
              auth_context_ref = auth_context_ref;
              updated_at = outside.clock w.readings;
            })
            w.store;
      readings = w.readings + 1;
    },
  )
  register_found request _ _ w = (ok request.token_ref, w)

  -- `_register_thread_auth_context`
  unfoldable pub register_thread_auth_context : ThreadCreateRequest → Action (Option String)
  register_thread_auth_context request =
      register_found request (present request.auth_context_ref) (present request.token_ref)

  abbrev thread_id_of : Option String → String
  thread_id_of none = "thread-" ++ outside.uuid4_hex
  thread_id_of (some thread_id) = thread_id

  abbrev thread_of : ThreadCreateRequest → Option String → ℕ → ℕ → ThreadRecord
  thread_of request token_ref created_at updated_at = record {
    thread_id = thread_id_of (present request.thread_id);
    user_id = request.user_id;
    session_id = request.session_id;
    tenant_id = request.tenant_id;
    messages = request.messages;
    state =
        thread_state_payload (thread_create_state request) request.user_id request.session_id
          request.tenant_id token_ref none;
    title = request.title;
    token_ref = token_ref;
    active_workflow_id = none;
    created_at = created_at;
    updated_at = updated_at;
  }

  abbrev save : ThreadRecord → Action ThreadRecord
  save thread w = (ok thread, record w { store = Stores.save_thread thread w.store })

  abbrev create_for : ThreadCreateRequest → TrustedSessionContext → Action ThreadRecord
  create_for request context = do
    token_ref ← register_thread_auth_context (with_trusted_context context request)
    created_at ← read_clock outside
    updated_at ← read_clock outside
    save (thread_of (with_trusted_context context request) token_ref created_at updated_at)

  unfoldable pub create_thread :
      Option String → Option String → ThreadCreateRequest → Action ThreadRecord
  unfolding trusted_context register_thread_auth_context with_trusted_context thread_create_state
      thread_state_payload
  create_thread encoded_context signature request = do
    context ← trusted_context outside encoded_context signature
    create_for request context

  abbrev found_or_404 : Option ThreadRecord → Result ThreadRecord
  found_or_404 none = err (http_exception 404 "thread not found")
  found_or_404 (some thread) = ok thread

  unfoldable pub restore_thread : String → Option String → Option String → Action ThreadRecord
  unfolding trusted_context
  restore_thread thread_id encoded_context signature = do
    context ← trusted_context outside encoded_context signature
    λ w. (
      found_or_404 (
          Stores.get_thread w.store thread_id context.user_id context.session_id context.tenant_id),
      w,
    )

  module _ (encoded_context signature : Option String) (request : ThreadCreateRequest)
      (w : World) where
    abbrev verified : Result TrustedSessionContext
    verified =
        verify_session_context outside.lib outside.codec (outside.clock w.readings) encoded_context
          signature (internal_auth_secret outside.env)

    -- A thread was created for the trusted context, and nothing else was stored.
    pub record IsCreated (out : Result ThreadRecord × World) : Type 0 where
      pub context : TrustedSessionContext
      pub trusted : verified ≡ ok context
      pub thread : ThreadRecord
      pub answer : out.0 ≡ ok thread
      pub user : thread.user_id ≡ context.user_id
      pub session : thread.session_id ≡ context.session_id
      pub tenant : thread.tenant_id ≡ context.tenant_id
      pub token_ref : thread.token_ref ≡ context.token_ref
      pub stored : (out.1).store ≡ Stores.save_thread thread w.store

    after_context :
        (r : Result TrustedSessionContext) (v : World)
        → v.store ≡ w.store
        → verified ≡ r
        → (((continue (create_for request) (or_401 outside r, v)).1).store ≡ w.store)
          ⊎ IsCreated (continue (create_for request) (or_401 outside r, v))
    unfolding register_thread_auth_context with_trusted_context
    after_context (err e) v same trusted = inl same
    after_context (ok context) v same trusted = inr (record {
      context = context;
      trusted = trusted;
      thread =
          thread_of (with_trusted_context context request) context.token_ref
            (outside.clock v.readings) (outside.clock (v.readings + 1));
      answer = refl;
      user = refl;
      session = refl;
      tenant = refl;
      token_ref = refl;
      stored = ap (Stores.save_thread _) same;
    })

    -- Whatever identity and token reference a body names, the route either leaves the store as it
    -- was, or it stores a thread, and that alone, of the trusted context's tenant, user, session and
    -- token reference.
    pub create_thread-IsCreated :
        (((create_thread encoded_context signature request w).1).store ≡ w.store)
        ⊎ IsCreated (create_thread encoded_context signature request w)
    unfolding create_thread trusted_context
    create_thread-IsCreated = after_context verified _ refl refl
