-- ===== src/AgentService.antt =====
-- services/agent_service: the process-local store, the dispatcher of tool intents, and the approval
-- and execution of workflows.
pub mod Models
pub mod Store
pub mod Orchestration
pub mod Payloads
pub mod Obo
pub mod World
pub mod Execution
pub mod Approval
pub mod Registration
pub mod Threads
pub mod RedisStore
pub mod Planning
pub mod Parts
pub mod ToolResults
pub mod Messages
pub mod History
