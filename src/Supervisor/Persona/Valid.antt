-- ===== src/Supervisor/Persona/Valid.antt =====
-- services/supervisor/agent_service_supervisor/routes.py: a persona can always be made.
use user_delegated_auth_serv.Base.{
  String, ◌≡◌, refl, false, Option, none, some, List, [], ◌∷◌, ok, is_empty, is_empty-append,
  Bool-cases, inl, inr,
}
use user_delegated_auth_serv.Json.{Fields}
use user_delegated_auth_serv.WorkflowCore.Validation.{min_length_1}
use user_delegated_auth_serv.Supervisor.Models.{new_persona}
use user_delegated_auth_serv.Supervisor.Persona.{
  build_user_persona, metadata_string, claim_string, email_name, or_else, persona_headline,
  persona_greeting,
}

or_else-filled :
    (o : Option String) (default : String)
    → is_empty default ≡ false
    → is_empty (or_else o default) ≡ false
unfolding or_else
or_else-filled none default h = h
or_else-filled (some s) default h = elim (Bool-cases (is_empty s)) [
  | inl e ↦ rw e h
  | inr e ↦ rw e e
]

persona_headline-filled :
    (display_name : String) (traits allowed_tools : List String)
    → is_empty display_name ≡ false
    → is_empty (persona_headline display_name traits allowed_tools) ≡ false
unfolding persona_headline
persona_headline-filled display_name traits (t ∷ ts) h = is_empty-append display_name _ h
persona_headline-filled display_name (t ∷ ts) [] h = is_empty-append display_name _ h
persona_headline-filled display_name [] [] h = is_empty-append display_name _ h

persona_greeting-filled :
    (display_name : String) (traits : List String)
    → is_empty (persona_greeting display_name traits) ≡ false
unfolding persona_greeting
persona_greeting-filled display_name [] = is_empty-append "Welcome back, " _ refl
persona_greeting-filled display_name (t ∷ ts) = is_empty-append "Welcome back, " _ refl

-- For a user with an id, whatever the metadata and the claims hold, the persona's texts are not
-- empty, so that the model accepts it as it is.
pub new_persona-build_user_persona :
    (claims id_claims metadata : Fields) (user_id : String) (email : Option String)
    (scopes allowed_tools : List String)
    → is_empty user_id ≡ false
    → new_persona (build_user_persona claims id_claims metadata user_id email scopes allowed_tools)
      ≡ ok (build_user_persona claims id_claims metadata user_id email scopes allowed_tools)
unfolding new_persona build_user_persona min_length_1
new_persona-build_user_persona claims id_claims metadata user_id email scopes allowed_tools h =
    let p = build_user_persona claims id_claims metadata user_id email scopes allowed_tools in
    let named : is_empty p.display_name ≡ false =
      or_else-filled (metadata_string metadata "display_name") _ (
        or_else-filled (claim_string "name" (claims ∷ id_claims ∷ [])) _ (
          or_else-filled (claim_string "nickname" (claims ∷ id_claims ∷ [])) _
            (or_else-filled (email_name email) user_id h))) in
    let headed : is_empty p.headline ≡ false =
      or_else-filled (metadata_string metadata "persona_headline") _
        (persona_headline-filled p.display_name p.traits allowed_tools named) in
    let greeted : is_empty p.greeting ≡ false =
      or_else-filled (metadata_string metadata "persona_greeting") _
        (persona_greeting-filled p.display_name p.traits) in
    rw (named, headed, greeted) refl
