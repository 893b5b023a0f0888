-- ===== src/WorkflowCore.antt =====
-- packages/workflow_core: models, catalogue, scopes, policy, hashing and grants.
pub mod Models
pub mod Validation
pub mod Catalog
pub mod Authz
pub mod Policy
pub mod Grants
