-- ===== src/WorkflowCore/Authz.antt =====
-- packages/workflow_core/workflow_core/authz.py: scope templates and their rendering.
pub mod Scopes
use Prim.Native.String.{[], ◌∷◌, ◌++◌}
use user_delegated_auth_serv.Base.{
  ℕ, Char, code, String, Bool, true, false, ◌||◌, ◌&&◌, not, Option, none, some, List, [], ◌∷◌,
  Result, ok, err, scope_materialization_error, ◌>>=◌, leb, nat_eq, is_empty, mem, keep, sorted_set,
  if◌then◌else◌,
}
use mathlib.Core.List.{◌++◌ as append}
use user_delegated_auth_serv.Json.{Json, null, bool, int, float, str, arr, obj, Fields, get, keys}
use user_delegated_auth_serv.Json.Dumps.{show_int, join}
use user_delegated_auth_serv.WorkflowCore.Models.{ToolProposal, ScopeRequirement}

-- A template is literal characters and `{name}` fields.
pub data Piece : Type 0 where
  lit : Char → Piece
  arg : String → Piece

-- `[A-Za-z_]`, and `[A-Za-z0-9_]`
is_name_start : ℕ → Bool
is_name_start c = (leb b'A' c && leb c b'Z') || (leb b'a' c && leb c b'z') || nat_eq c b'_'

is_name_char : ℕ → Bool
is_name_char c = is_name_start c || (leb b'0' c && leb c b'9')

abbrev lits : String → List Piece → List Piece
lits [] ps = ps
lits (c ∷ s) ps = lit c ∷ lits s ps

-- One pass of `_TEMPLATE_FIELD_RE`. The state is the text after a `{` that may open a field; it
-- holds name characters only, so where no field comes of it the pass need not go back.
pieces_from : Option String → String → List Piece
pieces_from none [] = []
pieces_from (some name) [] = lits ("{" ++ name) []
pieces_from none (c ∷ s) =
    if nat_eq (code c) b'{' then pieces_from (some "") s else lit c ∷ pieces_from none s
pieces_from (some name) (c ∷ s) =
    if not (is_empty name) && nat_eq (code c) b'}'
    then arg name ∷ pieces_from none s
    else if is_name_start (code c) || (not (is_empty name) && is_name_char (code c))
    then pieces_from (some (name ++ (c ∷ []))) s
    else if nat_eq (code c) b'{'
    then lits ("{" ++ name) (pieces_from (some "") s)
    else lits ("{" ++ name) (lit c ∷ pieces_from none s)

unfoldable pub pieces : String → List Piece
unfolding pieces_from is_name_start is_name_char
pieces template = pieces_from none template

arg_names : List Piece → List String
arg_names [] = []
arg_names (lit c ∷ ps) = arg_names ps
arg_names (arg name ∷ ps) = name ∷ arg_names ps

unfoldable pub template_arg_names : String → List String
unfolding arg_names pieces
template_arg_names scope_template = arg_names (pieces scope_template)

unfoldable pub render_scope_value : String → Json → Result String
unfolding show_int
render_scope_value name null =
    err (scope_materialization_error ("scope argument '" ++ (name ++ "' cannot be null")))
render_scope_value name (bool true) = ok "true"
render_scope_value name (bool false) = ok "false"
render_scope_value name (int n) = ok (show_int n)
render_scope_value name (float x) = ok x.text
render_scope_value name (str s) = ok s
render_scope_value name _ = err (
    scope_materialization_error
      ("scope argument '" ++ (name ++ "' must be a string, integer, float, or boolean")))

-- `tool_arguments[arg_name]`, after the check that no name is missing.
abbrev render_found : String → Option Json → Result String
render_found name none = err (scope_materialization_error name)
render_found name (some v) = render_scope_value name v

unfoldable pub render : List Piece → Fields → Result String
unfolding render_scope_value
render [] arguments = ok []
render (lit c ∷ ps) arguments = do rest ← render ps arguments; ok (c ∷ rest)
render (arg name ∷ ps) arguments = do
  value ← render_found name (get name arguments)
  rest ← render ps arguments
  ok (value ++ rest)

unfoldable pub has_brace : String → Bool
has_brace [] = false
has_brace (c ∷ s) = if nat_eq (code c) b'{' || nat_eq (code c) b'}' then true else has_brace s

-- The names that the scope needs and the arguments lack, sorted.
unfoldable pub missing_args : ScopeRequirement → Fields → List String
unfolding template_arg_names sorted_set keys
missing_args requirement arguments = sorted_set (
    keep (λ name. not (mem name (keys arguments)))
      (append requirement.scope_args (template_arg_names requirement.scope_template)))

abbrev checked : String → Result String
checked rendered =
    if has_brace rendered
    then err (scope_materialization_error "unsupported scope template syntax")
    else ok rendered

abbrev render_unless_missing : List String → ScopeRequirement → Fields → Result String
render_unless_missing [] requirement arguments = do
  rendered ← render (pieces requirement.scope_template) arguments
  checked rendered
render_unless_missing (name ∷ names) requirement arguments = err (
    scope_materialization_error
      ("missing required scope argument(s): " ++ join ", " (name ∷ names)))

unfoldable pub materialize_scope : ScopeRequirement → Fields → Result String
unfolding missing_args render has_brace pieces join
materialize_scope requirement arguments =
    render_unless_missing (missing_args requirement arguments) requirement arguments

each_scope : List ScopeRequirement → Fields → Result (List String)
unfolding materialize_scope
each_scope [] arguments = ok []
each_scope (r ∷ rs) arguments = do
  scope ← materialize_scope r arguments
  scopes ← each_scope rs arguments
  ok (scope ∷ scopes)

unfoldable pub materialize_scopes : List ScopeRequirement → Fields → Result (List String)
unfolding each_scope sorted_set
materialize_scopes requirements arguments = do
  scopes ← each_scope requirements arguments
  ok (sorted_set scopes)

unfoldable pub materialize_scopes_for_proposal :
    ToolProposal → List ScopeRequirement → Result (List String)
unfolding materialize_scopes
materialize_scopes_for_proposal proposal requirements =
    materialize_scopes requirements proposal.arguments
