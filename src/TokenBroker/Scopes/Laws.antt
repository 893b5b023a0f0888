-- ===== src/TokenBroker/Scopes/Laws.antt =====
-- What the normalisation of scope lists keeps and removes.
use user_delegated_auth_serv.Base.{
  String, ◌≡◌, refl, Bool, false, List, [], ◌∷◌, map, ok, err, arith, eq_iff, mem, any, is_empty,
  strip, value_error, if◌then◌else◌,
}
use user_delegated_auth_serv.Json.{strings, arr}
use user_delegated_auth_serv.TokenBroker.Scopes.{
  dedupe_from, dedupe, normalize_from, normalize_scopes, at_least_one,
}

mem-dedupe_from :
    (z : String) (seen xs : List String)
    → mem z (dedupe_from seen xs) ≡ (if mem z seen then false else mem z xs)
unfolding dedupe_from
mem-dedupe_from z seen [] = ground arith
mem-dedupe_from z seen (x ∷ xs) =
    ground (arith, mem-dedupe_from z seen xs, mem-dedupe_from z (x ∷ seen) xs, eq_iff z x)

pub mem-dedupe : (z : String) (xs : List String) → mem z (dedupe xs) ≡ mem z xs
unfolding dedupe
mem-dedupe z xs = mem-dedupe_from z [] xs

-- A text that is blank.
abbrev pub is_blank : String → Bool
is_blank s = is_empty (strip s)

normalize_from-dedupe_from :
    (seen xs : List String)
    → normalize_from seen (strings xs) ≡ (
        if any is_blank xs
        then err (value_error "scopes must not contain blank values")
        else ok (dedupe_from seen (map strip xs)))
unfolding normalize_from dedupe_from strings
normalize_from-dedupe_from seen [] = refl
normalize_from-dedupe_from seen (x ∷ xs) =
    ground
      (arith, normalize_from-dedupe_from seen xs, normalize_from-dedupe_from (strip x ∷ seen) xs)

-- `_normalize_scopes` of a list of texts refuses it if one of them is blank, or if it is empty and
-- must not be; else it yields the texts without the blanks around them, each once, in the order of
-- their first occurrence.
pub normalize_scopes-dedupe :
    (allow_empty : Bool) (xs : List String)
    → normalize_scopes allow_empty (arr (strings xs)) ≡ (
        if any is_blank xs
        then err (value_error "scopes must not contain blank values")
        else at_least_one allow_empty (dedupe (map strip xs)))
unfolding normalize_scopes dedupe
normalize_scopes-dedupe allow_empty xs = ground (arith, normalize_from-dedupe_from [] xs)
