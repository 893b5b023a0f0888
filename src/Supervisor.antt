-- ===== src/Supervisor.antt =====
-- services/supervisor/agent_service_supervisor, and the client of the observability sidecar that it
-- uses.
pub mod Models
pub mod Network
pub mod Persona
pub mod Metadata
pub mod Described
pub mod Handler
