-- ===== src/WorkflowCore/Grants/Signing.antt =====
-- When a grant's signature is accepted.
use user_delegated_auth_serv.Base.{
  String, ◌≡◌, ◌↔◌, false, Option, none, some, ok, arith, is_empty, eq_iff, eq_refl,
}
use user_delegated_auth_serv.Externals.{Digests}
use user_delegated_auth_serv.WorkflowCore.Models.{ExecutionGrant}
use user_delegated_auth_serv.WorkflowCore.Grants.{
  canonical_json, grant_payload, verify_execution_grant,
}

module _ (lib : Digests) where
  -- The only signature that fits: the keyed digest of the grant's canonical text.
  abbrev pub signature_of : ExecutionGrant → String → String
  signature_of grant secret =
      lib.hmac_hexdigest secret (canonical_json lib (grant_payload lib grant))

  pub record IsSigned (grant : ExecutionGrant) (signature : Option String) (secret : String)
      : Type 0 where
    pub secret_set : is_empty secret ≡ false
    pub signature_set : is_empty (signature_of grant secret) ≡ false
    pub same : signature ≡ some (signature_of grant secret)

  verify_sound :
      (grant : ExecutionGrant) (signature : Option String) (secret : String)
      → verify_execution_grant lib grant signature secret ≡ ok tt
      → IsSigned grant signature secret
  unfolding verify_execution_grant
  verify_sound grant none secret e = cc
  verify_sound grant (some signature) secret e =
      let same : signature ≡ signature_of grant secret =
        ground (arith, eq_iff signature (signature_of grant secret)) in
      record { secret_set = ground arith; signature_set = ground arith; same = ground arith }

  verify_complete :
      (grant : ExecutionGrant) (signature : Option String) (secret : String)
      → IsSigned grant signature secret
      → verify_execution_grant lib grant signature secret ≡ ok tt
  unfolding verify_execution_grant
  verify_complete grant signature secret h =
      rw (h.same, verify_execution_grant) (simp (h.secret_set, h.signature_set, eq_refl))

  -- A grant is accepted exactly when the secret is set and the signature is the digest under it of
  -- the grant's canonical text.
  pub verify_execution_grant-eq-ok_iff :
      (grant : ExecutionGrant) (signature : Option String) (secret : String)
      → (verify_execution_grant lib grant signature secret ≡ ok tt)
        ↔ IsSigned grant signature secret
  verify_execution_grant-eq-ok_iff grant signature secret =
      (verify_sound grant signature secret, verify_complete grant signature secret)
