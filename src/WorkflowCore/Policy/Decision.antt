-- ===== src/WorkflowCore/Policy/Decision.antt =====
-- What `evaluate_workflow_policy` decides, said step by step.
use user_delegated_auth_serv.Base.{
  ℕ, String, Bool, true, ◌≡◌, refl, ◌∙◌, ◌||◌, ◌≤◌, List, [], ◌∷◌, ok, arith, leb, nat_eq, any, All,
  mem, mem-append, mem-sorted_set, sorted_set, sorted_set-IsAscending, IsAscending,
}
use user_delegated_auth_serv.WorkflowCore.Models.{BlastRadius, WorkflowStep, WorkflowPolicyDecision}
use user_delegated_auth_serv.WorkflowCore.Validation.{
  new_policy_decision, dedupe_sorted, require_non_empty_strings, min_length_1,
}
use user_delegated_auth_serv.WorkflowCore.Policy.{
  blast_rank, rank_blast, is_elevated, max_rank, all_scopes, evaluate_workflow_policy,
}

-- A step that a person has to approve.
abbrev pub needs_approval : WorkflowStep → Bool
needs_approval s =
    s.mutates_external_state || is_elevated s.operation_type || leb 2 (blast_rank s.blast_radius)

-- What `new_policy_decision` leaves of a decision.
new_policy_decision-eq-ok :
    (c d : WorkflowPolicyDecision)
    → new_policy_decision c ≡ ok d
    → d ≡ record c { required_scopes = sorted_set c.required_scopes }
unfolding new_policy_decision dedupe_sorted require_non_empty_strings min_length_1
new_policy_decision-eq-ok c d h = ground arith

any-needs_approval :
    (steps : List WorkflowStep)
    → (any (λ s. s.mutates_external_state) steps
        || any (λ s. is_elevated s.operation_type) steps
        || leb 2 (max_rank steps))
      ≡ any needs_approval steps
unfolding max_rank
any-needs_approval [] = refl
any-needs_approval (s ∷ ss) = ground (arith, any-needs_approval ss)

-- A decision asks for a person's approval exactly when a step changes external state, writes or
-- administers, or has a blast radius of at least medium.
pub evaluate_workflow_policy-requires_hitl :
    (steps : List WorkflowStep) (d : WorkflowPolicyDecision)
    → evaluate_workflow_policy steps ≡ ok d
    → d.requires_hitl ≡ any needs_approval steps
unfolding evaluate_workflow_policy
evaluate_workflow_policy-requires_hitl [] d h = rw (new_policy_decision-eq-ok _ d h) refl
evaluate_workflow_policy-requires_hitl (s ∷ ss) d h =
    rw (new_policy_decision-eq-ok _ d h) (any-needs_approval (s ∷ ss))

blast_rank-le : (b : BlastRadius) → blast_rank b ≤ 3
blast_rank-le BlastRadius.none = omega arith
blast_rank-le BlastRadius.low = omega arith
blast_rank-le BlastRadius.medium = omega arith
blast_rank-le BlastRadius.high = omega arith

max_rank-le : (steps : List WorkflowStep) → max_rank steps ≤ 3
unfolding max_rank
max_rank-le [] = omega arith
max_rank-le (s ∷ ss) =
    let first = blast_rank-le s.blast_radius in let rest = max_rank-le ss in omega arith

blast_rank-rank_blast : (n : ℕ) → n ≤ 3 → blast_rank (rank_blast n) ≡ n
blast_rank-rank_blast n h = ground arith

abbrev IsBelow : ℕ → WorkflowStep → Type 0
IsBelow n s = blast_rank s.blast_radius ≤ n

IsBelow-mono : (m n : ℕ) (ss : List WorkflowStep) → m ≤ n → All (IsBelow m) ss → All (IsBelow n) ss
IsBelow-mono m n [] h k = tt
IsBelow-mono m n (s ∷ ss) h (k, ks) = (omega arith, IsBelow-mono m n ss h ks)

max_rank-IsBelow : (ss : List WorkflowStep) → All (IsBelow (max_rank ss)) ss
unfolding max_rank
max_rank-IsBelow [] = tt
max_rank-IsBelow (s ∷ ss) =
    (omega arith, IsBelow-mono (max_rank ss) _ ss (omega arith) (max_rank-IsBelow ss))

any-max_rank :
    (s : WorkflowStep) (ss : List WorkflowStep)
    → any (λ t. nat_eq (blast_rank t.blast_radius) (max_rank (s ∷ ss))) (s ∷ ss) ≡ true
unfolding max_rank
any-max_rank s [] = ground arith
any-max_rank s (t ∷ ts) = ground (arith, any-max_rank t ts)

mem-all_scopes :
    (z : String) (ss : List WorkflowStep)
    → mem z (all_scopes ss) ≡ any (λ s. mem z s.required_scopes) ss
unfolding all_scopes
mem-all_scopes z [] = refl
mem-all_scopes z (s ∷ ss) =
    ground (arith, mem-append z s.required_scopes (all_scopes ss), mem-all_scopes z ss)

-- The scopes of a decision are the scopes of its steps: a text is in the decision's list exactly
-- when it is in some step's list, and the decision's list is sorted, with no text twice.
pub evaluate_workflow_policy-required_scopes :
    (steps : List WorkflowStep) (d : WorkflowPolicyDecision)
    → evaluate_workflow_policy steps ≡ ok d
    → ((z : String) → mem z d.required_scopes ≡ any (λ s. mem z s.required_scopes) steps)
      × IsAscending d.required_scopes
unfolding evaluate_workflow_policy
evaluate_workflow_policy-required_scopes [] d h =
    rw (new_policy_decision-eq-ok _ d h) (λ z. mem-sorted_set z [], sorted_set-IsAscending [])
evaluate_workflow_policy-required_scopes (s ∷ ss) d h = rw (new_policy_decision-eq-ok _ d h) (
  λ z. mem-sorted_set z (all_scopes (s ∷ ss)) ∙ mem-all_scopes z (s ∷ ss),
  sorted_set-IsAscending (all_scopes (s ∷ ss)),
)

-- `n` is the greatest rank of the steps.
pub record IsGreatest (n : ℕ) (steps : List WorkflowStep) : Type 0 where
  pub bound : All (IsBelow n) steps
  pub attained : any (λ t. nat_eq (blast_rank t.blast_radius) n) steps ≡ true

max_rank-IsGreatest :
    (s : WorkflowStep) (ss : List WorkflowStep) → IsGreatest (max_rank (s ∷ ss)) (s ∷ ss)
max_rank-IsGreatest s ss = record {
  bound = max_rank-IsBelow (s ∷ ss);
  attained = any-max_rank s ss;
}

-- The blast radius of a decision on at least one step is the greatest of the steps': no step's is
-- greater, and one of them has it.
pub evaluate_workflow_policy-blast_radius :
    (s : WorkflowStep) (ss : List WorkflowStep) (d : WorkflowPolicyDecision)
    → evaluate_workflow_policy (s ∷ ss) ≡ ok d
    → IsGreatest (blast_rank d.blast_radius) (s ∷ ss)
unfolding evaluate_workflow_policy
evaluate_workflow_policy-blast_radius s ss d h =
    rw
      (
        new_policy_decision-eq-ok _ d h,
        blast_rank-rank_blast (max_rank (s ∷ ss)) (max_rank-le (s ∷ ss)),
      )
      (max_rank-IsGreatest s ss)
