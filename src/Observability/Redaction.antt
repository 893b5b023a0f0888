-- ===== src/Observability/Redaction.antt =====
-- packages/observability/observability/redaction.py. `lower` is Python's, and `redact_string`, which
-- only applies four patterns of `re`, is a parameter.
use Prim.Native.String.{[], ◌∷◌, ◌++◌}
use user_delegated_auth_serv.Base.{
  Char, code, String, Bool, true, false, ◌&&◌, ◌||◌, List, [], ◌∷◌, any, mem, is_empty, leb, ◌==◌,
  if◌then◌else◌,
}
use user_delegated_auth_serv.Json.{Json, str, arr, obj, Items, nil, cons, Fields, end, field}

pub record Texts : Type 0 where
  pub lower : String → String
  pub redact_string : String → String

-- `[a-z0-9]` and `[A-Z]`
abbrev is_lower_or_digit : Char → Bool
is_lower_or_digit c =
    (leb b'a' (code c) && leb (code c) b'z') || (leb b'0' (code c) && leb (code c) b'9')

abbrev is_upper : Char → Bool
is_upper c = leb b'A' (code c) && leb (code c) b'Z'

-- `_CAMEL_CASE_BOUNDARY.sub(r"\1_\2", text)`; `after` tells whether `[a-z0-9]` was just read.
camel_from : Bool → String → String
camel_from after [] = []
camel_from after (c ∷ s) =
    (if after && is_upper c then "_" else "") ++ (c ∷ camel_from (is_lower_or_digit c) s)

unfoldable pub split_camel_case : String → String
unfolding camel_from
split_camel_case s = camel_from false s

-- `text.split(…)` at every character that is not `[a-z0-9]`, without the empty parts.
words_from : String → String → List String
words_from word [] = if is_empty word then [] else word ∷ []
words_from word (c ∷ s) =
    let ended = if is_empty word then words_from [] s else word ∷ words_from [] s in
    let longer = words_from (word ++ (c ∷ [])) s in if is_lower_or_digit c then longer else ended

join_with : String → List String → String
join_with sep [] = []
join_with sep (x ∷ []) = x
join_with sep (x ∷ y ∷ ys) = x ++ (sep ++ join_with sep (y ∷ ys))

-- `_EXACT_SENSITIVE_KEYS`
unfoldable pub exact_sensitive_keys : List String
exact_sensitive_keys =
    "authorization" ∷ "proxy_authorization" ∷ "x_api_key" ∷ "api_key" ∷ "apikey" ∷ "client_secret"
    ∷ "secret" ∷ "password" ∷ "passwd" ∷ "private_key" ∷ "credential" ∷ "credentials" ∷ []

-- `_SENSITIVE_PARTS`
unfoldable pub sensitive_parts : List String
sensitive_parts = "secret" ∷ "password" ∷ "passwd" ∷ "credential" ∷ "credentials" ∷ []

unfoldable pub ends_with : String → String → Bool
ends_with suffix [] = is_empty suffix
ends_with suffix (c ∷ s) = if (c ∷ s) == suffix then true else ends_with suffix s

module _ (texts : Texts) where
  -- The words of `_normalize_key`: its runs of other characters are the underscores between them.
  unfoldable pub key_words : String → List String
  unfolding split_camel_case words_from
  key_words key = words_from [] (texts.lower (split_camel_case key))

  unfoldable pub normalize_key : String → String
  unfolding key_words join_with
  normalize_key key = join_with "_" (key_words key)

  unfoldable pub is_sensitive_key : String → Bool
  unfolding normalize_key key_words exact_sensitive_keys sensitive_parts ends_with join_with
  is_sensitive_key key =
      let compact = join_with "" (key_words key) in
      mem (normalize_key key) exact_sensitive_keys
      || mem "authorization" (key_words key)
      || mem "token" (key_words key)
      || any (λ part. mem part sensitive_parts) (key_words key)
      || ends_with "token" compact
      || mem compact ("authorization" ∷ "apikey" ∷ "privatekey" ∷ [])

  -- `redact_sensitive` of a JSON value
  unfoldable mutual
    unfolding is_sensitive_key

    pub redact_sensitive : Json → Json
    redact_sensitive (str s) = str (texts.redact_string s)
    redact_sensitive (arr xs) = arr (redact_items xs)
    redact_sensitive (obj fs) = obj (redact_fields fs)
    redact_sensitive v = v

    pub redact_items : Items → Items
    redact_items nil = nil
    redact_items (cons x xs) = cons (redact_sensitive x) (redact_items xs)

    pub redact_fields : Fields → Fields
    redact_fields end = end
    redact_fields (field k v fs) =
        field k (if is_sensitive_key k then str "[REDACTED]" else redact_sensitive v)
          (redact_fields fs)
