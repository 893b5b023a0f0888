-- ===== src/TokenBroker/Exchange/Audience.antt =====
-- Which tokens the exchange accepts.
use mathlib.Core.List.{◌++◌ as append}
use user_delegated_auth_serv.Base.{
  ℕ, String, ◌≡◌, sym, ◌∙◌, ap, true, not, Option, some, List, [], ◌∷◌, ok, >>=-eq-ok, arith,
  eq_iff, mem, mem-keep, keep, is_empty, opt_eq, opt_eq_iff, Bool-cases, inl, inr,
}
use user_delegated_auth_serv.Json.{Fields}
use user_delegated_auth_serv.WorkflowCore.Validation.{min_length_1}
use user_delegated_auth_serv.TokenBroker.Scopes.{dedupe}
use user_delegated_auth_serv.TokenBroker.Scopes.Laws.{mem-dedupe}
use user_delegated_auth_serv.TokenBroker.Models.{
  WorkflowTokenExchangeRequest, WorkflowTokenExchangeResponse, Auth0OnBehalfOfConfig,
  new_exchange_response, sorted_scopes,
}
use user_delegated_auth_serv.TokenBroker.Exchange.{
  Auth0, required_string, audience_candidates, audience_field, claim_audiences, audience_or, only,
  pick_audience, token_for, exchange_form, audience_from_response, scopes_from_response,
  exchange_for_workflow_token,
}

mem-only : (x : String) (xs : List String) → only xs ≡ some x → mem x xs ≡ true
mem-only x [] e = cc
mem-only x (y ∷ []) e = ground (arith, eq_iff x y)
mem-only x (y ∷ z ∷ xs) e = cc

mem-pick_audience :
    (x expected : String) (xs : List String) → pick_audience xs expected ≡ some x → mem x xs ≡ true
mem-pick_audience x expected xs e = ground (arith, mem-only x xs)

new_exchange_response-eq-ok :
    (r response : WorkflowTokenExchangeResponse)
    → new_exchange_response r ≡ ok response
    → (response.access_token ≡ r.access_token)
      × (response.audience ≡ r.audience)
      × (sorted_scopes r.scopes ≡ ok response.scopes)
unfolding new_exchange_response
new_exchange_response-eq-ok r response e =
    let (u, set, e1) = >>=-eq-ok (min_length_1 r.access_token) _ e in
    let (scopes, sorted, last) = >>=-eq-ok (sorted_scopes r.scopes) _ e1 in
    let same : record r { scopes = scopes } ≡ response = cc in
    (ground (arith, same), ground (arith, same), rw (sym same) sorted)

token_for-eq-ok :
    (now : ℕ) (payload : Fields) (token : String) (scopes : List String) (expected : String)
    (audience : Option String) (response : WorkflowTokenExchangeResponse)
    → token_for now payload token scopes expected audience ≡ ok response
    → (audience ≡ some expected)
      × (response.access_token ≡ token)
      × (response.audience ≡ audience)
      × (sorted_scopes scopes ≡ ok response.scopes)
token_for-eq-ok now payload token scopes expected audience response e =
    elim (Bool-cases (opt_eq audience (some expected))) [
      | inl b ↦
          let (token_same, audience_same, sorted) =
            new_exchange_response-eq-ok _ response (rw b at e) in
          ((opt_eq_iff audience (some expected)).0 b, token_same, audience_same, sorted)
      | inr b ↦ ground arith
    ]

module _ (auth0 : Auth0) where
  -- The audiences that an answer names: in its own field, and in the token's claims.
  abbrev named_audiences : Fields → String → List String
  named_audiences payload access_token =
      append (audience_candidates (audience_field payload))
        (claim_audiences (auth0.claims_of access_token))

  mem-audience_from_response :
      (payload : Fields) (access_token expected x : String)
      → audience_from_response auth0 payload access_token expected ≡ some x
      → mem x (named_audiences payload access_token) ≡ true
  unfolding audience_from_response
  mem-audience_from_response payload access_token expected x e =
      let named : List String = named_audiences payload access_token in
      let kept : List String = keep (λ candidate. not (is_empty candidate)) named in
      let among : mem x kept ≡ true =
        sym (mem-dedupe x kept) ∙ mem-pick_audience x expected (dedupe kept) e in
      ground (arith, mem-keep (λ candidate. not (is_empty candidate)) x named)

  -- What an accepted answer of Auth0 comes to.
  pub record IsExchanged (now : ℕ) (config : Auth0OnBehalfOfConfig)
      (request : WorkflowTokenExchangeRequest) (response : WorkflowTokenExchangeResponse)
      : Type 0 where
    pub payload : Fields
    pub answered :
        auth0.post (record { url = config.token_endpoint; form = exchange_form config request })
        ≡ ok payload
    pub token : required_string payload "access_token" ≡ ok response.access_token
    pub audience : response.audience ≡ some (audience_or request.requested_audience config.audience)
    pub named :
        mem
          (audience_or request.requested_audience config.audience)
          (named_audiences payload response.access_token)
        ≡ true
    pub scopes :
        sorted_scopes (scopes_from_response auth0 payload response.access_token [])
        ≡ ok response.scopes

  -- An exchange yields a token only from an answer to the posted form, for the audience that was
  -- asked for, which the answer or the token's claims name, with the scopes that they name, sorted.
  pub exchange_for_workflow_token-IsExchanged :
      (now : ℕ) (config : Auth0OnBehalfOfConfig) (request : WorkflowTokenExchangeRequest)
      (response : WorkflowTokenExchangeResponse)
      → exchange_for_workflow_token auth0 now config request ≡ ok response
      → IsExchanged now config request response
  unfolding exchange_for_workflow_token
  exchange_for_workflow_token-IsExchanged now config request response e =
      let (payload, answered, e1) = >>=-eq-ok (auth0.post _) _ e in
      let (access_token, token, e2) = >>=-eq-ok (required_string payload "access_token") _ e1 in
      let (same, token_same, audience_same, scopes) =
        token_for-eq-ok now payload access_token _ _ _ response e2 in
      record {
        payload = payload;
        answered = answered;
        token = token ∙ ap ok (sym token_same);
        audience = audience_same ∙ same;
        named = rw token_same (mem-audience_from_response payload access_token _ _ same);
        scopes = rw token_same scopes;
      }
