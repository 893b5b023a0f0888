-- ===== src/WorkflowCore/Policy.antt =====
-- packages/workflow_core/workflow_core/policy.py
pub mod Decision
use Prim.Native.Nat.{max}
use user_delegated_auth_serv.Base.{
  ℕ, String, Bool, true, false, ◌||◌, none, List, [], ◌∷◌, ◌++◌, map, any, leb, Result,
  if◌then◌else◌,
}
use user_delegated_auth_serv.Json.Dumps.{join}
use user_delegated_auth_serv.WorkflowCore.Models.{
  OperationType, BlastRadius, WorkflowStep, WorkflowPolicyDecision,
}
use user_delegated_auth_serv.WorkflowCore.Validation.{new_policy_decision}

abbrev pub blast_rank : BlastRadius → ℕ
blast_rank BlastRadius.none = 0
blast_rank BlastRadius.low = 1
blast_rank BlastRadius.medium = 2
blast_rank BlastRadius.high = 3

-- `_RANK_BLAST[rank]`; the ranks are 0 to 3.
abbrev pub rank_blast : ℕ → BlastRadius
rank_blast n =
    if leb n 0
    then BlastRadius.none
    else if leb n 1
    then BlastRadius.low
    else if leb n 2
    then BlastRadius.medium
    else BlastRadius.high

abbrev pub is_elevated : OperationType → Bool
is_elevated OperationType.read = false
is_elevated OperationType.write = true
is_elevated OperationType.admin = true

unfoldable pub max_rank : List WorkflowStep → ℕ
max_rank [] = 0
max_rank (s ∷ ss) = max (blast_rank s.blast_radius) (max_rank ss)

unfoldable pub all_scopes : List WorkflowStep → List String
all_scopes [] = []
all_scopes (s ∷ ss) = s.required_scopes ++ all_scopes ss

abbrev policy_of : List WorkflowStep → ℕ → WorkflowPolicyDecision
policy_of steps rank = record {
  requires_hitl =
      any (λ s. s.mutates_external_state) steps
      || any (λ s. is_elevated s.operation_type) steps
      || leb (blast_rank BlastRadius.medium) rank;
  blast_radius = rank_blast rank;
  human_description = join "; " (map (λ s. s.hitl_description) steps);
  required_scopes = all_scopes steps;
  denied_reason = none;
}

abbrev no_actions : WorkflowPolicyDecision
no_actions = record {
  requires_hitl = false;
  blast_radius = BlastRadius.none;
  human_description = "No workflow actions were proposed.";
  required_scopes = [];
  denied_reason = none;
}

unfoldable pub evaluate_workflow_policy : List WorkflowStep → Result WorkflowPolicyDecision
unfolding max_rank all_scopes
evaluate_workflow_policy [] = new_policy_decision no_actions
evaluate_workflow_policy (s ∷ ss) = new_policy_decision (policy_of (s ∷ ss) (max_rank (s ∷ ss)))
