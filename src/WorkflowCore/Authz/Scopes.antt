-- ===== src/WorkflowCore/Authz/Scopes.antt =====
-- What a materialised scope is.
use Prim.Native.String.{◌∷◌, ◌++◌}
use mathlib.Core.List.{◌++◌ as append}
use user_delegated_auth_serv.Base.{
  Bool, some, not, ap, keep, keep-eq-nil, mem-keep, mem-append, sorted_set-eq-nil, Option-cases,
  ◌==◌, String, ◌≡◌, refl, false, List, [], ◌∷◌, ok, >>=-eq-ok, IsAscending, sorted_set,
  sorted_set-IsAscending, mem, mem-sorted_set, true, Bool-cases, inl, inr, ◌↔◌, arith, sym, ◌∙◌,
  eq_iff,
}
use user_delegated_auth_serv.Json.{
  Json, null, bool, int, float, str, arr, obj, Fields, end, field, get, keys,
}
use user_delegated_auth_serv.Json.Dumps.{show_int}
use user_delegated_auth_serv.WorkflowCore.Models.{ScopeRequirement}
use user_delegated_auth_serv.WorkflowCore.Authz.{
  Piece, lit, arg, arg_names, template_arg_names, render_scope_value, pieces, render, has_brace,
  missing_args, checked, render_unless_missing, materialize_scope, each_scope, materialize_scopes,
}

mem-keys : (key : String) (fs : Fields) (v : Json) → get key fs ≡ some v → mem key (keys fs) ≡ true
unfolding get keys
mem-keys key end v e = cc
mem-keys key (field k w fs) v e = ground (arith, mem-keys key fs v, eq_iff k key, eq_iff key k)

-- The text that a scope argument is shown as; a list, an object and null are not shown.
abbrev pub IsShown : Json → String → Type 0
IsShown (bool true) text = text ≡ "true"
IsShown (bool false) text = text ≡ "false"
IsShown (int n) text = text ≡ show_int n
IsShown (float x) text = text ≡ x.text
IsShown (str s) text = text ≡ s
IsShown _ text = false ≡ true

-- The text is the pieces one after the other, with the value of its argument for each field.
abbrev pub Spells : List Piece → Fields → String → Type 0
Spells [] arguments text = text ≡ ""
Spells (lit c ∷ ps) arguments text =
    (rest : String) × (text ≡ (c ∷ rest)) × Spells ps arguments rest
Spells (arg name ∷ ps) arguments text =
    (value : Json) × (shown rest : String) × (get name arguments ≡ some value)
    × IsShown value shown
    × (text ≡ (shown ++ rest))
    × Spells ps arguments rest

-- The scope that a requirement comes to: each argument that it declares is given, and the scope is the
-- template with the arguments' values in its fields, and has no brace left.
pub record IsRendered (requirement : ScopeRequirement) (arguments : Fields) (scope : String)
    : Type 0 where
  pub declared :
      (name : String) → mem name requirement.scope_args ≡ true → mem name (keys arguments) ≡ true
  pub spelled : Spells (pieces requirement.scope_template) arguments scope
  pub no_brace : has_brace scope ≡ false

render_scope_value-IsShown :
    (name : String) (v : Json) (text : String)
    → render_scope_value name v ≡ ok text
    → IsShown v text
unfolding render_scope_value
render_scope_value-IsShown name null text e = cc
render_scope_value-IsShown name (bool true) text e = cc
render_scope_value-IsShown name (bool false) text e = cc
render_scope_value-IsShown name (int n) text e = cc
render_scope_value-IsShown name (float x) text e = cc
render_scope_value-IsShown name (str s) text e = cc
render_scope_value-IsShown name (arr items) text e = cc
render_scope_value-IsShown name (obj fs) text e = cc

IsShown-render_scope_value :
    (name : String) (v : Json) (text : String)
    → IsShown v text
    → render_scope_value name v ≡ ok text
unfolding render_scope_value
IsShown-render_scope_value name null text h = cc
IsShown-render_scope_value name (bool true) text h = cc
IsShown-render_scope_value name (bool false) text h = cc
IsShown-render_scope_value name (int n) text h = cc
IsShown-render_scope_value name (float x) text h = cc
IsShown-render_scope_value name (str s) text h = cc
IsShown-render_scope_value name (arr items) text h = cc
IsShown-render_scope_value name (obj fs) text h = cc

render-Spells :
    (ps : List Piece) (arguments : Fields) (text : String)
    → render ps arguments ≡ ok text
    → Spells ps arguments text
unfolding render
render-Spells [] arguments text e = cc
render-Spells (lit c ∷ ps) arguments text e =
    let (rest, made, last) = >>=-eq-ok (render ps arguments) _ e in
    (rest, cc, render-Spells ps arguments rest made)
render-Spells (arg name ∷ ps) arguments text e = elim (Option-cases (get name arguments)) [
  | inl missing ↦ cc (rw missing at e)
  | inr (value, found) ↦
      (let (shown, made, e1) = >>=-eq-ok (render_scope_value name value) _ (rw found at e) in
        let (rest, more, last) = >>=-eq-ok (render ps arguments) _ e1 in
        (
          value,
          shown,
          rest,
          found,
          render_scope_value-IsShown name value shown made,
          cc,
          render-Spells ps arguments rest more,
        ))
]

Spells-render :
    (ps : List Piece) (arguments : Fields) (text : String)
    → Spells ps arguments text
    → render ps arguments ≡ ok text
unfolding render
Spells-render [] arguments text h = cc
Spells-render (lit c ∷ ps) arguments text (rest, same, more) =
    rw (Spells-render ps arguments rest more, same) refl
Spells-render (arg name ∷ ps) arguments text (value, shown, rest, found, is_shown, same, more) =
    rw
      (
        found,
        IsShown-render_scope_value name value shown is_shown,
        Spells-render ps arguments rest more,
        same,
      )
      refl

-- A field that is spelled has its argument.
Spells-given :
    (ps : List Piece) (arguments : Fields) (text name : String)
    → Spells ps arguments text
    → mem name (arg_names ps) ≡ true
    → mem name (keys arguments) ≡ true
unfolding arg_names
Spells-given [] arguments text name h m = cc
Spells-given (lit c ∷ ps) arguments text name (rest, same, more) m =
    Spells-given ps arguments rest name more m
Spells-given (arg slot ∷ ps) arguments text name (value, shown, rest, found, is_shown, same, more)
      m =
    elim (Bool-cases (slot == name)) [
      | inl e ↦ rw (sym ((eq_iff slot name).0 e)) (mem-keys slot arguments value found)
      | inr e ↦
          Spells-given ps arguments rest name more
            (ground (arith, eq_iff name slot, eq_iff slot name))
    ]

missing_args_sound :
    (requirement : ScopeRequirement) (arguments : Fields) (name : String)
    → missing_args requirement arguments ≡ []
    → mem name requirement.scope_args ≡ true
    → mem name (keys arguments) ≡ true
unfolding missing_args
missing_args_sound requirement arguments name h m =
    let p : String → Bool = λ key. not (mem key (keys arguments)) in
    let all = append requirement.scope_args (template_arg_names requirement.scope_template) in
    let empty : keep p all ≡ [] = sorted_set-eq-nil (keep p all) h in
    ground (
      arith,
      mem-keep p name all,
      empty,
      mem-append name requirement.scope_args (template_arg_names requirement.scope_template),
    )

missing_args_complete :
    (requirement : ScopeRequirement) (arguments : Fields) (scope : String)
    → IsRendered requirement arguments scope
    → missing_args requirement arguments ≡ []
unfolding missing_args template_arg_names
missing_args_complete requirement arguments scope h =
    let ps = pieces requirement.scope_template in
    ap sorted_set (
      keep-eq-nil _ (append requirement.scope_args (arg_names ps)) (λ s m.
        ap not (elim (Bool-cases (mem s requirement.scope_args)) [
          | inl e ↦ h.declared s e
          | inr e ↦
              Spells-given ps arguments scope s h.spelled
                (ground (arith, mem-append s requirement.scope_args (arg_names ps)))
        ])))

checked-eq-ok : (s scope : String) → checked s ≡ ok scope → (s ≡ scope) × (has_brace scope ≡ false)
checked-eq-ok s scope h = elim (Bool-cases (has_brace s)) [
  | inl b ↦ ground arith
  | inr b ↦ ground arith
]

render_unless_missing_sound :
    (missing : List String) (requirement : ScopeRequirement) (arguments : Fields) (scope : String)
    → missing_args requirement arguments ≡ missing
    → render_unless_missing missing requirement arguments ≡ ok scope
    → IsRendered requirement arguments scope
render_unless_missing_sound [] requirement arguments scope m e =
    let (s, rendered, last) =
      >>=-eq-ok (render (pieces requirement.scope_template) arguments) checked e in
    let (same, no_brace) = checked-eq-ok s scope last in
    record {
      declared = λ name given. missing_args_sound requirement arguments name m given;
      spelled =
          render-Spells (pieces requirement.scope_template) arguments scope (rw same at rendered);
      no_brace = no_brace;
    }
render_unless_missing_sound (name ∷ names) requirement arguments scope m e = cc

-- A requirement comes to a scope exactly when every argument that it declares is given, and the scope is
-- its template with, for each field, the text of the argument of that name, and has no brace left.
pub materialize_scope-eq-ok_iff :
    (requirement : ScopeRequirement) (arguments : Fields) (scope : String)
    → (materialize_scope requirement arguments ≡ ok scope) ↔ IsRendered requirement arguments scope
unfolding materialize_scope
materialize_scope-eq-ok_iff requirement arguments scope = (
  render_unless_missing_sound _ requirement arguments scope refl,
  λ h.
      let rendered = Spells-render (pieces requirement.scope_template) arguments scope h.spelled in
      rw (missing_args_complete requirement arguments scope h, rendered)
        (ground (arith, h.no_brace)),
)

-- A scope with no brace in it.
abbrev IsPlain : String → Type 0
IsPlain scope = has_brace scope ≡ false

each_scope-IsPlain :
    (requirements : List ScopeRequirement) (arguments : Fields) (scopes : List String)
    → each_scope requirements arguments ≡ ok scopes
    → (z : String) → mem z scopes ≡ true
    → IsPlain z
unfolding each_scope
each_scope-IsPlain [] arguments scopes e z m = ground arith
each_scope-IsPlain (r ∷ rs) arguments scopes e z m =
    let (first, made, e1) = >>=-eq-ok (materialize_scope r arguments) _ e in
    let (rest, more, e2) = >>=-eq-ok (each_scope rs arguments) _ e1 in
    let plain = ((materialize_scope-eq-ok_iff r arguments first).0 made).no_brace in
    ground (arith, each_scope-IsPlain rs arguments rest more z, eq_iff z first)

-- The scopes of a call are sorted, with no text twice, and none has a brace in it: no template
-- leaves a field unfilled, and no argument's value brings a template in.
pub materialize_scopes-IsPlain :
    (requirements : List ScopeRequirement) (arguments : Fields) (scopes : List String)
    → materialize_scopes requirements arguments ≡ ok scopes
    → IsAscending scopes × ((z : String) → mem z scopes ≡ true → IsPlain z)
unfolding materialize_scopes
materialize_scopes-IsPlain requirements arguments scopes e =
    let (raw, made, last) = >>=-eq-ok (each_scope requirements arguments) _ e in
    let same : scopes ≡ sorted_set raw = cc in
    rw same (
      sorted_set-IsAscending raw,
      λ z m. each_scope-IsPlain requirements arguments raw made z (sym (mem-sorted_set z raw) ∙ m),
    )
