-- ===== src/Externals.antt =====
-- What the services take from libraries outside the repository: keyed and plain digests, and the
-- text of an instant in JSON.
use user_delegated_auth_serv.Base.{ℕ, String}

pub record Digests : Type 0 where
  -- `hmac.new(secret, message, sha256).hexdigest()`
  pub hmac_hexdigest : (secret message : String) → String
  -- `sha256(material).hexdigest()`
  pub sha256_hexdigest : String → String
  -- a `datetime` as pydantic writes it to JSON
  pub isoformat : ℕ → String
