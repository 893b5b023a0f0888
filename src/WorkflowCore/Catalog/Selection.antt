-- ===== src/WorkflowCore/Catalog/Selection.antt =====
-- What the catalogue's look-up finds, and which issued scopes a tool is given.
use user_delegated_auth_serv.Base.{
  ◌⊎◌, inl, inr, Bool-cases, ◌||◌, String, ◌≡◌, refl, Bool, true, false, Option, none, some, List,
  [], ◌∷◌, map, ok, >>=-eq-ok, arith, ◌==◌, eq_iff, sym, ◌≢◌, mem, keep, any, is_empty, strip, not,
  ◌&&◌, mem-sorted_set, mem-sorted, mem-keep, sorted-eq-nil, ◌∙◌,
}
use user_delegated_auth_serv.WorkflowCore.Models.{OperationType}
use user_delegated_auth_serv.WorkflowCore.Authz.{template_arg_names}
use user_delegated_auth_serv.WorkflowCore.Catalog.{
  ToolAuthorizationSpec, find_tool, or_key_error, get_tool_authorization, normalize_issued, prefer,
  select_from, select_auth0_scopes_for_tool, tool_authorization_catalog,
}

abbrev pub has_audience : ToolAuthorizationSpec → Bool
has_audience spec = elim spec.downstream_audience [
  | some audience ↦ not (is_empty audience)
  | none ↦ false
]

-- What makes an entry fit for its key, for the rendering of its scopes and for the gateway.
pub record IsConsistent (name : String) (spec : ToolAuthorizationSpec) : Type 0 where
  pub tool_name : spec.tool_name ≡ name
  pub declared :
      (template field : String)
      → mem template spec.workflow_scope_templates ≡ true
      → mem field (template_arg_names template) ≡ true
      → mem field spec.scope_args ≡ true
  pub placed : (spec.op ≡ OperationType.read) ⊎ (has_audience spec ≡ true)

any-false :
    (p : String → Bool) (z : String) (xs : List String)
    → any p xs ≡ false
    → mem z xs ≡ true
    → p z ≡ false
any-false p z [] h m = cc
any-false p z (x ∷ xs) h m = ground (arith, any-false p z xs, eq_iff x z, eq_iff z x)

is_read : OperationType → Bool
is_read OperationType.read = true
is_read _ = false

is_read-eq-true : (op : OperationType) → is_read op ≡ true → op ≡ OperationType.read
unfolding is_read
is_read-eq-true OperationType.read h = refl
is_read-eq-true op h = cc

is_undeclared : ToolAuthorizationSpec → Bool
is_undeclared spec =
    any (λ template. any (λ field. not (mem field spec.scope_args)) (template_arg_names template))
      spec.workflow_scope_templates

is_consistent : String → ToolAuthorizationSpec → Bool
is_consistent name spec =
    spec.tool_name == name && not (is_undeclared spec) && (is_read spec.op || has_audience spec)

are_consistent : List (String × ToolAuthorizationSpec) → Bool
are_consistent [] = true
are_consistent ((name, spec) ∷ entries) = is_consistent name spec && are_consistent entries

is_consistent-IsConsistent :
    (name : String) (spec : ToolAuthorizationSpec)
    → is_consistent name spec ≡ true
    → IsConsistent name spec
unfolding is_consistent is_undeclared
is_consistent-IsConsistent name spec h = record {
  tool_name = ground (arith, eq_iff spec.tool_name name);
  declared = λ template field m n.
      let fields : is_undeclared spec ≡ false = ground arith in
      let inner =
        any-false (λ t. any (λ f. not (mem f spec.scope_args)) (template_arg_names t)) template
          spec.workflow_scope_templates fields m in
      let last =
        any-false (λ f. not (mem f spec.scope_args)) field (template_arg_names template) inner n in
      ground arith;
  placed = elim (Bool-cases (is_read spec.op)) [
    | inl r ↦ inl (is_read-eq-true spec.op r)
    | inr r ↦ inr (ground arith)
  ];
}

find_tool-is_consistent :
    (name : String) (entries : List (String × ToolAuthorizationSpec)) (spec : ToolAuthorizationSpec)
    → are_consistent entries ≡ true
    → find_tool name entries ≡ some spec
    → is_consistent name spec ≡ true
unfolding find_tool are_consistent
find_tool-is_consistent name [] spec h e = cc
find_tool-is_consistent name ((key, s) ∷ entries) spec h e = elim (Bool-cases (key == name)) [
  | inl same ↦
      (let key_same = (eq_iff key name).0 same in
        let spec_same : s ≡ spec = cc (rw same at e) in
        let both : is_consistent key s ≡ true = ground arith in cc)
  | inr other ↦ find_tool-is_consistent name entries spec (ground arith) (rw other at e)
]

catalog_is_consistent : are_consistent tool_authorization_catalog ≡ true
unfolding are_consistent is_consistent is_undeclared is_read tool_authorization_catalog
    template_arg_names
catalog_is_consistent = refl

or_key_error-eq-ok :
    (name : String) (o : Option ToolAuthorizationSpec) (spec : ToolAuthorizationSpec)
    → or_key_error name o ≡ ok spec
    → o ≡ some spec
or_key_error-eq-ok name none spec h = cc
or_key_error-eq-ok name (some s) spec h = cc

-- The entry found for a tool is the entry of that name; each field of its scope templates is among the
-- arguments that it declares; and it names an audience, unless it only reads.
pub get_tool_authorization-IsConsistent :
    (name : String) (spec : ToolAuthorizationSpec)
    → get_tool_authorization name ≡ ok spec
    → IsConsistent name spec
unfolding get_tool_authorization
get_tool_authorization-IsConsistent name spec h = is_consistent-IsConsistent name spec (
    find_tool-is_consistent name tool_authorization_catalog spec catalog_is_consistent
      (or_key_error-eq-ok name (find_tool name tool_authorization_catalog) spec h))

-- `scope` is one of the issued texts without the blanks around it, and is not empty.
abbrev pub is_issued : String → List String → Bool
is_issued scope issued = any (λ s. strip s == scope && not (is_empty scope)) issued

mem-stripped :
    (z : String) (issued : List String)
    → mem z (map strip (keep (λ scope. not (is_empty (strip scope))) issued)) ≡ is_issued z issued
mem-stripped z [] = refl
mem-stripped z (s ∷ ss) = ground (arith, mem-stripped z ss, eq_iff z (strip s), eq_iff (strip s) z)

mem-normalize_issued :
    (z : String) (issued : List String) → mem z (normalize_issued issued) ≡ is_issued z issued
unfolding normalize_issued
mem-normalize_issued z issued = mem-sorted_set z _ ∙ mem-stripped z issued

mem-prefer :
    (z : String) (issued preferred : List String)
    → (mem z preferred ≡ true → mem z issued ≡ true)
    → mem z (prefer issued preferred) ≡ true
    → mem z issued ≡ true
unfolding prefer
mem-prefer z issued [] k h = h
mem-prefer z issued (s ∷ ss) k h = k (sym (mem-sorted z (s ∷ ss)) ∙ h)

prefer-ne-nil : (x : String) (issued preferred : List String) → prefer (x ∷ issued) preferred ≢ []
unfolding prefer
prefer-ne-nil x issued [] h = cc
prefer-ne-nil x issued (s ∷ ss) h = cc (sorted-eq-nil (s ∷ ss) h)

mem-select_from :
    (z tool_name : String) (issued selected : List String)
    → select_from issued tool_name ≡ ok selected
    → mem z selected ≡ true
    → mem z issued ≡ true
mem-select_from z tool_name [] selected e m = ground arith
mem-select_from z tool_name (x ∷ xs) selected e m =
    let (spec, found, last) = >>=-eq-ok (get_tool_authorization tool_name) _ e in
    let preferred : List String = keep (λ s. mem s (x ∷ xs)) spec.auth0_scope_candidates in
    let same : prefer (x ∷ xs) preferred ≡ selected = cc in
    let among : mem z preferred ≡ true → mem z (x ∷ xs) ≡ true =
      ground (arith, mem-keep (λ s. mem s (x ∷ xs)) z spec.auth0_scope_candidates) in
    mem-prefer z (x ∷ xs) preferred among (rw same m)

select_from-eq-nil :
    (tool_name : String) (issued : List String) → select_from issued tool_name ≡ ok [] → issued ≡ []
select_from-eq-nil tool_name [] e = refl
select_from-eq-nil tool_name (x ∷ xs) e =
    let (spec, found, last) = >>=-eq-ok (get_tool_authorization tool_name) _ e in
    let same : prefer (x ∷ xs) (keep (λ s. mem s (x ∷ xs)) spec.auth0_scope_candidates) ≡ [] = cc in
    absurd (prefer-ne-nil x xs _ same)

is_issued-false :
    (issued : List String)
    → normalize_issued issued ≡ []
    → (z : String) → is_issued z issued ≡ false
is_issued-false issued e z = rw (sym (mem-normalize_issued z issued), e) refl

-- A tool is only given scopes that were issued, and it is given none only if none was issued.
pub select_auth0_scopes_for_tool-is_issued :
    (tool_name : String) (issued selected : List String)
    → select_auth0_scopes_for_tool tool_name issued ≡ ok selected
    → ((z : String) → mem z selected ≡ true → is_issued z issued ≡ true)
      × (selected ≡ [] → (z : String) → is_issued z issued ≡ false)
unfolding select_auth0_scopes_for_tool
select_auth0_scopes_for_tool-is_issued tool_name issued selected e = (
  λ z m.
      sym (mem-normalize_issued z issued)
      ∙ mem-select_from z tool_name (normalize_issued issued) selected e m,
  λ none_selected.
      is_issued-false issued
        (select_from-eq-nil tool_name (normalize_issued issued) (rw none_selected at e)),
)
