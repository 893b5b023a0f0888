-- ===== src/Observability.antt =====
-- packages/observability/observability and services/observability_sidecar: what is kept of traces and
-- logs, and with which values redacted.
pub mod Redaction
pub mod Redacted
pub mod Sidecar
pub mod Bounded
