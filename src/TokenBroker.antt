-- ===== src/TokenBroker.antt =====
-- packages/token_broker: scope lists, and the on-behalf-of exchange with Auth0.
pub mod Scopes
pub mod Models
pub mod Exchange
