-- ===== src/Supervisor/Persona.antt =====
-- services/supervisor/agent_service_supervisor/routes.py: what the metadata says of a user.
pub mod Valid
use Prim.Native.String.{[], ◌∷◌, ◌++◌}
use mathlib.Core.List.{◌++◌ as append}
use user_delegated_auth_serv.Base.{
  ℕ, zero, suc, code, String, Bool, true, false, not, Option, none, some, List, [], ◌∷◌, map,
  length, decimal, nat_eq, strip, is_empty, if◌then◌else◌,
}
use user_delegated_auth_serv.Json.{Json, str, arr, Items, nil, cons, Fields, get}
use user_delegated_auth_serv.Json.Dumps.{join}
use user_delegated_auth_serv.Supervisor.Models.{UserPersona, stripped_set}

abbrev pub stripped : Option Json → Option String
stripped (some (str s)) = if is_empty (strip s) then none else some (strip s)
stripped _ = none

-- `_metadata_string`
unfoldable pub metadata_string : Fields → String → Option String
unfolding strip get
metadata_string metadata key = stripped (get key metadata)

-- `_claim_string`
unfoldable pub claim_string : String → List Fields → Option String
unfolding strip get
claim_string key [] = none
claim_string key (claims ∷ rest) = elim (stripped (get key claims)) [
  | some s ↦ some s
  | none ↦ claim_string key rest
]

texts : Items → List String
texts nil = []
texts (cons (str s) vs) = s ∷ texts vs
texts (cons v vs) = texts vs

abbrev listed : Option Json → List String
listed (some (arr values)) = stripped_set (texts values)
listed _ = []

unfoldable pub metadata_string_list : Fields → String → List String
unfolding stripped_set texts get
metadata_string_list metadata key = listed (get key metadata)

-- `xs[:n]`
unfoldable pub take {ℓ} : {A : Type ℓ} → ℕ → List A → List A
take zero xs = []
take (suc n) [] = []
take (suc n) (x ∷ xs) = x ∷ take n xs

abbrev plural : ℕ → String
plural n = if nat_eq n 1 then "" else "s"

abbrev email_traits : Option String → List String
email_traits none = []
email_traits (some email) = if is_empty email then [] else ("email: " ++ email) ∷ []

abbrev scope_traits : List String → List String
scope_traits [] = []
scope_traits (s ∷ ss) =
    (decimal (length (s ∷ ss)) ++ (" approved scope" ++ plural (length (s ∷ ss)))) ∷ []

abbrev tool_traits : List String → List String
tool_traits [] = []
tool_traits (t ∷ ts) =
    (decimal (length (t ∷ ts)) ++ (" MCP tool" ++ (plural (length (t ∷ ts)) ++ " available"))) ∷ []

unfoldable pub persona_traits_from_session : List String → List String → Option String → List String
unfolding decimal take
persona_traits_from_session scopes allowed_tools email =
    take 4 (append (email_traits email) (append (scope_traits scopes) (tool_traits allowed_tools)))

unfoldable pub persona_headline : String → List String → List String → String
unfolding decimal take join
persona_headline display_name traits (t ∷ ts) =
    display_name
    ++ (" is cleared for "
        ++ (decimal (length (t ∷ ts))
            ++ (" workflow tool"
                ++ (plural (length (t ∷ ts)) ++ (": " ++ (join ", " (take 3 (t ∷ ts)) ++ "."))))))
persona_headline display_name (t ∷ ts) [] =
    display_name ++ (" signed in with " ++ (join ", " (take 2 (t ∷ ts)) ++ "."))
persona_headline display_name [] [] = display_name ++ " signed in with an Auth0-backed identity."

unfoldable pub persona_greeting : String → List String → String
persona_greeting display_name [] =
    "Welcome back, " ++ (display_name ++ ". I am ready to plan workflows for this session.")
persona_greeting display_name (t ∷ ts) =
    "Welcome back, " ++ (display_name ++ (". I tuned this workspace around " ++ (t ++ ".")))

-- `text.split("@", 1)[0]`
before_at : String → String
before_at [] = []
before_at (c ∷ s) = if nat_eq (code c) b'@' then [] else c ∷ before_at s

-- `value or default`
unfoldable pub or_else : Option String → String → String
or_else none default = default
or_else (some s) default = if is_empty s then default else s

abbrev email_name : Option String → Option String
email_name none = none
email_name (some email) = if is_empty email then none else some (before_at email)

abbrev pub or_traits : List String → List String → List String
or_traits [] default = default
or_traits (t ∷ ts) default = t ∷ ts

-- `_build_user_persona`, before the model checks its texts.
unfoldable pub build_user_persona :
    Fields → Fields → Fields → String → Option String → List String → List String → UserPersona
unfolding or_else metadata_string claim_string metadata_string_list persona_traits_from_session
    persona_headline persona_greeting before_at
build_user_persona claims id_claims metadata user_id email scopes allowed_tools =
    let display_name = or_else (metadata_string metadata "display_name") (
      or_else (claim_string "name" (claims ∷ id_claims ∷ [])) (
        or_else (claim_string "nickname" (claims ∷ id_claims ∷ []))
          (or_else (email_name email) user_id))) in
    let traits =
      or_traits (metadata_string_list metadata "persona_traits")
        (persona_traits_from_session scopes allowed_tools email) in
    record {
      display_name = display_name;
      headline =
          or_else (metadata_string metadata "persona_headline")
            (persona_headline display_name traits allowed_tools);
      greeting =
          or_else (metadata_string metadata "persona_greeting")
            (persona_greeting display_name traits);
      traits = traits;
    }
