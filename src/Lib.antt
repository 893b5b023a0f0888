-- ===== src/Lib.antt =====
-- A verification library of the user-delegated authorisation services: what a language model proposes
-- becomes a plan of catalogued tool calls, a person approves the plan, the agent service exchanges the
-- person's token for one on their behalf, and the egress gateway lets a call through to an MCP server
-- only with a signed grant for that very call.
--
-- The parts, and the files that model them:
--   * packages/workflow_core: WorkflowCore. Models has the data, Validation the constructors that
--     pydantic makes of them (`new_…` is the model's constructor with its field constraints), Catalog
--     the tool catalogue, Authz the scope templates, Policy the decision on a plan, Grants the canonical
--     JSON, the plan hash and the signature of grants.
--   * packages/session_state: SessionState. InternalAuth is internal_auth.py, the signed context that
--     the services pass on; Keys is key_builder.py; Models the states with a version; Redis what the
--     stores use of the Redis client; RedisStore the store with its optimistic update.
--   * packages/token_broker: TokenBroker. The on-behalf-of exchange of auth0.py and its models.
--   * services/egress_gateway: EgressGateway. Authorization is `derive_outbound_request` and what it
--     calls, Handler the route `POST /egress/mcp` and the MCP call.
--   * services/agent_service: AgentService. Store is the in-memory store of state.py and RedisStore
--     the one over Redis, Orchestration the dispatcher, Payloads what of a workflow and of a
--     thread's state is shown or kept, History what a store answers after any calls, World the state
--     that handlers act on, Obo and Execution the token exchange and the steps of an approved
--     workflow, Approval the route `POST /workflows/{workflow_id}/approve`, Planning the routes
--     `POST /workflows/plan` and `GET /workflows/{workflow_id}`, Parts, ToolResults and Messages the
--     messages that a thread keeps, Registration the route `POST /token-context`, Threads the routes
--     that create and restore a thread.
--   * services/ag_ui_gateway: AgUiGateway. Client is the reader of the agent service's stream, Sse the
--     route `POST /agent` with what a browser may see of each event.
--   * services/supervisor: Supervisor. Handler is the route `POST /identity/auth0/session`, Metadata the
--     profile that it loads, Persona what it makes of it, Network the requests that it sends.
--   * packages/observability and services/observability_sidecar: Observability. Redaction is
--     redaction.py by keys, Sidecar the bounded store of traces and logs.
--   * Base and Json are shared: exceptions and results, Python's operations on texts, sets of texts as
--     sorted lists, dictionaries as association lists, JSON values and `json.dumps`.
--   * Tests runs the theorems at concrete inputs.
-- The modules below a component prove its properties and are named for them.
--
-- How the code is modelled. A function that may raise returns a `Result`, and a handler of the agent
-- service is an action, a function from the `World` (store, clock, and the requests sent) to a result
-- and a world; the world that an exception leaves is kept, as the mutated state is in Python. A
-- `datetime` is a number of microseconds in UTC, a `dict` keeps its keys in insertion order, a set
-- that is only sorted or tested is a sorted list, a float is finite, and is kept as the text that
-- `str` gives for it and its exact value as a fraction, a Redis key is a list of code points. A dump
-- with `exclude_none` leaves the field out. The digests (`Digests`), base64 and pydantic's reader of
-- the context (`ContextCodec`), Auth0 (`Auth0`), the MCP client, the clock, `uuid4`, `float`,
-- `json.loads`, the environment and the answers of the gateway (`Outside`) are parameters. The body of
-- a request to the gateway is the record that the gateway's model reads from it. `str.upper` is that
-- of ASCII texts, as the names of the catalogue are. Parameters too are the Redis client with its
-- server (`Redis`), pydantic's codecs of what is kept there, the HTTP network, the provider's
-- proposals (`Runtime`), the Unicode tables behind `lower` and `isalnum`, and the patterns that redact
-- inside a text. What is relied on of Redis is named: `IsDatabase`, a key that is set is read back,
-- and `Watches`, a transaction is aborted when a watched key has changed.
--
-- Two definitions run on fuel: the printing of a number, whose fuel is the number, and the optimistic
-- update of a session state, a round for each retry, in which other clients act as they like. One round
-- more than those that are aborted is enough.
--
-- Not modelled: the intent providers (calls of the Google ADK runtime and the reading of its answers),
-- the streaming of runs, the four patterns that redact inside a text, the client-credentials exchange
-- and the HTTP client of the token broker, the OpenTelemetry set-up, and the MCP servers, which answer
-- fixed data. A version that is expected is not negative, a time to live is positive, and no key of
-- Redis runs out meanwhile. The two headers of a signed context are ASCII: for others the code raises
-- UnicodeEncodeError or TypeError where the model refuses the context. NaN and the infinities, which
-- Python reads from some texts, and Python's limit on recursion are left out. Handlers run one after
-- the other, except that other clients act between the commands of an update over Redis; interleavings
-- of two requests within a handler of the agent service are not modelled.
pub mod Base
pub mod Json
pub mod Externals
pub mod WorkflowCore
pub mod SessionState
pub mod EgressGateway
pub mod TokenBroker
pub mod AgUiGateway
pub mod Supervisor
pub mod AgentService
pub mod Observability
pub mod Tests
