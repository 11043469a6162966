-- ===== src/MergePolicy/Evaluation.antt =====
-- When `evaluate_merge_policy` permits a merge.
use clotho.Prelude.{ℕ, ◌≡◌, ◌≢◌, ◌↔◌, refl, Bool, true, false, ◌&&◌, List, [], ◌∷◌, All, arith}
use clotho.Prelude.Bytes.{Bytes, lit, beq_iff, to_ascii_lowercase}
use clotho.Prelude.Int.{ℤ, pos, negsuc, ◌≤ℤ◌, ltb_ℤ}
use clotho.Prelude.Results.{Result, ok}
use clotho.MergePolicy.{
  MergePolicy, CommitStatusInfo, BlockReason, evaluate_merge_policy, passing_actions,
  check_statuses, check_state,
}

-- A state that is none of the three that block.
abbrev pub IsPassing : CommitStatusInfo → Type 0
IsPassing status =
    let state = to_ascii_lowercase status.state in
    (state ≢ lit "failure") × (state ≢ lit "error") × (state ≢ lit "pending")

pub record IsPermitted (policy : MergePolicy) (mergeable : Bool) (statuses : List CommitStatusInfo)
    (approval_count : ℕ) : Type 0 where
  pub no_conflict : policy.block_merge_when_conflicted ≡ true → mergeable ≡ true
  pub reported : policy.require_passing_actions ≡ true → statuses ≢ []
  pub passing : policy.require_passing_actions ≡ true → All IsPassing statuses
  pub approved : policy.require_review_approvals ≤ℤ pos approval_count

check_state-eq-ok :
    (context state : Bytes) (rest : Result BlockReason (Unit {0}))
    → (check_state context state rest ≡ ok tt) ↔ (
        ((state ≢ lit "failure") × (state ≢ lit "error") × (state ≢ lit "pending"))
        × (rest ≡ ok tt))
unfolding check_state
check_state-eq-ok context state rest = ground (
  arith,
  beq_iff state (lit "failure"),
  beq_iff state (lit "error"),
  beq_iff state (lit "pending"),
)

check_statuses-eq-ok :
    (statuses : List CommitStatusInfo) → (check_statuses statuses ≡ ok tt) ↔ All IsPassing statuses
unfolding check_statuses
check_statuses-eq-ok [] = (λ e. tt, λ h. refl)
check_statuses-eq-ok (status ∷ statuses) =
    let head =
      check_state-eq-ok status.context (to_ascii_lowercase status.state)
        (check_statuses statuses) in
    let tail = check_statuses-eq-ok statuses in
    (λ e. let (p, r) = head.0 e in (p, tail.0 r), λ (p, h). head.1 (p, tail.1 h))

passing_actions-eq-ok :
    (statuses : List CommitStatusInfo)
    → (passing_actions statuses ≡ ok tt) ↔ ((statuses ≢ []) × All IsPassing statuses)
unfolding passing_actions
passing_actions-eq-ok [] = (λ e. cc, λ (ne, h). absurd (ne refl))
passing_actions-eq-ok (status ∷ statuses) =
    let (to, from) = check_statuses-eq-ok (status ∷ statuses) in
    (λ e. (λ nil. cc, to e), λ (ne, h). from h)

enough_approvals :
    (required : ℤ) (n : ℕ)
    → ((ltb_ℤ (pos 0) required && ltb_ℤ (pos n) required) ≡ false) ↔ (required ≤ℤ pos n)
enough_approvals (pos r) n = ground arith
enough_approvals (negsuc r) n = ground arith

-- A pull request may be merged exactly if the policy permits it: no conflicts where they block,
-- at least one status and none that failed or is pending where actions must pass, and no fewer
-- approvals than required.
pub evaluate-eq-ok_iff :
    (policy : MergePolicy) (mergeable : Bool) (statuses : List CommitStatusInfo)
    (approval_count : ℕ)
    → (evaluate_merge_policy policy mergeable statuses approval_count ≡ ok tt)
      ↔ IsPermitted policy mergeable statuses approval_count
unfolding evaluate_merge_policy
evaluate-eq-ok_iff policy mergeable statuses approval_count = (there, back)
  where
    actions : (passing_actions statuses ≡ ok tt) ↔ ((statuses ≢ []) × All IsPassing statuses)
    actions = passing_actions-eq-ok statuses

    enough :
        ((ltb_ℤ (pos 0) policy.require_review_approvals
            && ltb_ℤ (pos approval_count) policy.require_review_approvals)
          ≡ false)
        ↔ (policy.require_review_approvals ≤ℤ pos approval_count)
    enough = enough_approvals policy.require_review_approvals approval_count

    there :
        evaluate_merge_policy policy mergeable statuses approval_count ≡ ok tt
        → IsPermitted policy mergeable statuses approval_count
    there e = record {
      no_conflict = λ b. ground arith;
      reported = λ b. (actions.0 (ground arith)).0;
      passing = λ b. (actions.0 (ground arith)).1;
      approved = enough.0 (ground arith);
    }

    back :
        IsPermitted policy mergeable statuses approval_count
        → evaluate_merge_policy policy mergeable statuses approval_count ≡ ok tt
    back h =
        let act =
          λ (r : policy.require_passing_actions ≡ true). actions.1 (h.reported r, h.passing r) in
        let found = enough.1 h.approved in
        let clean = h.no_conflict in ground (arith, act, found, clean)
