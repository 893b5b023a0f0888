-- ===== src/TokenBroker/Scopes.antt =====
-- `_normalize_scopes` of packages/token_broker/token_broker/models.py, and text helpers.
pub mod Laws
use Prim.Native.String.{[], ◌∷◌, ◌++◌}
use user_delegated_auth_serv.Base.{
  ℕ, code, String, Bool, true, false, not, ◌&&◌, Option, none, some, List, [], ◌∷◌, Result, ok, err,
  ◌>>=◌, ◌>>◌, guard, value_error, mem, strip, is_empty, nat_eq, without_prefix, if◌then◌else◌,
}
use user_delegated_auth_serv.Json.{
  Json, null, bool, int, float, str, arr, obj, Items, nil, cons, Fields, keys, strings,
}

-- `dict.fromkeys(values)`: each text once, in the order of its first occurrence.
dedupe_from : List String → List String → List String
dedupe_from seen [] = []
dedupe_from seen (x ∷ xs) =
    let again : List String = dedupe_from seen xs in
    let first : List String = x ∷ dedupe_from (x ∷ seen) xs in if mem x seen then again else first

unfoldable pub dedupe : List String → List String
unfolding dedupe_from
dedupe xs = dedupe_from [] xs

abbrev add_scope : String → Result (List String) → Result (List String)
add_scope scope rest = do scopes ← rest; ok (scope ∷ scopes)

-- The loop of `_normalize_scopes`; `seen` holds what `normalized` holds.
normalize_from : List String → Items → Result (List String)
unfolding strip
normalize_from seen nil = ok []
normalize_from seen (cons (str raw_scope) rest) =
    let again = normalize_from seen rest in
    let first = add_scope (strip raw_scope) (normalize_from (strip raw_scope ∷ seen) rest) in
    if is_empty (strip raw_scope)
    then err (value_error "scopes must not contain blank values")
    else if mem (strip raw_scope) seen
    then again
    else first
normalize_from seen (cons v rest) = err (value_error "each scope must be a string")

abbrev pub at_least_one : Bool → List String → Result (List String)
at_least_one false [] = err (value_error "at least one scope is required")
at_least_one allow_empty scopes = ok scopes

-- Iterating a `dict` gives its keys.
unfoldable pub normalize_scopes : Bool → Json → Result (List String)
unfolding normalize_from
normalize_scopes allow_empty (str s) =
    err (value_error "scopes must be a sequence of strings, not a string")
normalize_scopes allow_empty (arr values) = do
  scopes ← normalize_from [] values
  at_least_one allow_empty scopes
normalize_scopes allow_empty (obj fs) = do
  scopes ← normalize_from [] (strings (keys fs))
  at_least_one allow_empty scopes
normalize_scopes allow_empty v = err (value_error "scopes must be a sequence of strings")

-- `value.split(" ")` without its empty parts; `word` is the part being read.
words_from : String → String → List String
words_from word [] = if is_empty word then [] else word ∷ []
words_from word (c ∷ s) =
    let ended = if is_empty word then words_from [] s else word ∷ words_from [] s in
    let longer = words_from (word ++ (c ∷ [])) s in if nat_eq (code c) b' ' then ended else longer

unfoldable pub parse_scope_string : String → List String
unfolding words_from
parse_scope_string value = words_from [] value

-- `s.removeprefix(p)`
abbrev kept : Option String → String → String
kept none s = s
kept (some rest) s = rest

unfoldable pub remove_prefix : String → String → String
unfolding without_prefix
remove_prefix p s = kept (without_prefix p s) s

abbrev pub has_prefix : String → String → Bool
has_prefix p s = elim (without_prefix p s) [ none ↦ false | some rest ↦ true ]
