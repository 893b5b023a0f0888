-- ===== src/SessionState.antt =====
-- packages/session_state: signed contexts, Redis keys and the Redis store of session states.
pub mod InternalAuth
pub mod Keys
pub mod Models
pub mod Redis
pub mod RedisStore
