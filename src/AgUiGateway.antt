-- ===== src/AgUiGateway.antt =====
-- services/ag_ui_gateway/ag_ui_gateway: the gateway between a browser and the agent service.
pub mod Models
pub mod Client
pub mod Sse
pub mod Ascii
pub mod Frames
