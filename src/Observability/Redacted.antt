-- ===== src/Observability/Redacted.antt =====
-- packages/observability/observability/redaction.py: what `redact_sensitive` leaves.
use user_delegated_auth_serv.Base.{◌≡◌, refl, Bool-cases, inl, inr, if◌then◌else◌}
use user_delegated_auth_serv.Json.{
  Json, null, bool, int, float, str, arr, obj, Items, nil, cons, Fields, end, field,
}
use user_delegated_auth_serv.Observability.Redaction.{
  Texts, is_sensitive_key, redact_sensitive, redact_items, redact_fields,
}

module _ (texts : Texts) where
  -- At every depth, a sensitive key has the value `[REDACTED]`.
  unfoldable mutual
    pub IsRedacted : Json → Type 0
    IsRedacted (arr xs) = AreRedacted xs
    IsRedacted (obj fs) = HasRedacted fs
    IsRedacted v = Unit

    pub AreRedacted : Items → Type 0
    AreRedacted nil = Unit
    AreRedacted (cons x xs) = IsRedacted x × AreRedacted xs

    pub HasRedacted : Fields → Type 0
    HasRedacted end = Unit
    HasRedacted (field k v fs) =
        (if is_sensitive_key texts k then v ≡ str "[REDACTED]" else IsRedacted v) × HasRedacted fs

  mutual
    unfolding redact_sensitive IsRedacted

    pub redact_sensitive-IsRedacted : (v : Json) → IsRedacted (redact_sensitive texts v)
    redact_sensitive-IsRedacted null = tt
    redact_sensitive-IsRedacted (bool b) = tt
    redact_sensitive-IsRedacted (int n) = tt
    redact_sensitive-IsRedacted (float s) = tt
    redact_sensitive-IsRedacted (str s) = tt
    redact_sensitive-IsRedacted (arr xs) = redact_items-AreRedacted xs
    redact_sensitive-IsRedacted (obj fs) = redact_fields-HasRedacted fs

    redact_items-AreRedacted : (xs : Items) → AreRedacted (redact_items texts xs)
    redact_items-AreRedacted nil = tt
    redact_items-AreRedacted (cons x xs) =
        (redact_sensitive-IsRedacted x, redact_items-AreRedacted xs)

    pub redact_fields-HasRedacted : (fs : Fields) → HasRedacted (redact_fields texts fs)
    redact_fields-HasRedacted end = tt
    redact_fields-HasRedacted (field k v fs) = elim (Bool-cases (is_sensitive_key texts k)) [
      | inl p ↦ rw p (refl, redact_fields-HasRedacted fs)
      | inr p ↦ rw p (redact_sensitive-IsRedacted v, redact_fields-HasRedacted fs)
    ]
