-- ===== src/EgressGateway.antt =====
-- services/egress_gateway/egress_gateway/app.py: the checks before an MCP call, and the handler.
pub mod Models
pub mod Authorization
pub mod Handler
