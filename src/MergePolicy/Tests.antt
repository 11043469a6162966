-- ===== src/MergePolicy/Tests.antt =====
-- Policies, reviews and merges at concrete inputs.
use Prim.Native.String.{String}
use clotho.Prelude.{
  ◌≢◌, ℕ, suc, ◌↔◌, ◌≡◌, ◌⊎◌, refl, true, false, none, some, List, [], ◌∷◌, length, if◌then◌else◌,
}
use clotho.Prelude.Bytes.{Bytes, lit, text_code}
use clotho.Prelude.Int.{pos}
use clotho.Prelude.Results.{ok, err}
use clotho.ApiErrors.{ApiError}
use clotho.MergePolicy.{
  MergePolicy, UpdateMergePolicyRequest, CommitStatusInfo, ReviewInfo, has_conflicts,
  check_reported, Services, MergeError, or_api, default_policy, evaluate_merge_policy,
  count_approving_reviews, is_approval, merge_pull, is_method, approvals,
}
use clotho.MergePolicy.Policies.{Policies, unwrap_or, load_merge_policy, upsert_merge_policy}
use clotho.MergePolicy.Evaluation.{IsPermitted, evaluate-eq-ok_iff}
use clotho.MergePolicy.Merging.{IsMergeable, merge_pull-cases}
use clotho.MergePolicy.Storage.{IsUpdateOf, IsRefused, policy_in, upsert-IsStored}

policy_code : Unit {0}
unfolding evaluate_merge_policy count_approving_reviews upsert_merge_policy merge_pull is_method
    approvals default_policy text_code
policy_code = tt

abbrev review : Bytes → Bytes → ReviewInfo
review login state = record { login = login; state = state }

abbrev alice : Bytes
unfolding lit
alice = lit "alice"

abbrev bob : Bytes
unfolding lit
bob = lit "bob"

abbrev reviews : List ReviewInfo
unfolding lit
reviews = review alice (lit "APPROVED") ∷ review bob (lit "approved") ∷ []

conflicts_block : evaluate_merge_policy (default_policy []) false [] 0 ≡ err has_conflicts
unfolding policy_code
conflicts_block = refl

first_review_counts :
    count_approving_reviews (
      review alice (lit "APPROVED")
      ∷ review alice (lit "REQUEST_CHANGES")
      ∷ review bob (lit "APPROVED")
      ∷ [])
    ≡ 2
unfolding policy_code
first_review_counts = refl

abbrev changes_first : List ReviewInfo
unfolding lit
changes_first =
    review alice (lit "REQUEST_CHANGES")
    ∷ review alice (lit "APPROVED")
    ∷ review bob (lit "APPROVED")
    ∷ []

-- Alice asked for changes at 9, after her approval at 5; Bob approved at 3.
abbrev submitted : ReviewInfo → ℕ
submitted r = if is_approval r then length r.login else 9

only_bob : count_approving_reviews changes_first ≡ 1
unfolding policy_code
only_bob = refl

abbrev strict : MergePolicy
strict = record {
  require_passing_actions = true;
  block_merge_when_conflicted = true;
  require_review_approvals = pos 2;
  protect_default_branch = false;
  updated_at = [];
}

abbrev passed : List CommitStatusInfo
unfolding lit
passed = record { state = lit "Success"; context = [] } ∷ []

failed_check :
    evaluate_merge_policy strict true (record { state = lit "FAILURE"; context = [] } ∷ []) 2
    ≡ err (check_reported (lit "check") (lit "failure"))
unfolding policy_code
failed_check = refl

passes : evaluate_merge_policy strict true passed 2 ≡ ok tt
unfolding policy_code
passes = refl

evaluate-eq-ok_iff_example :
    (evaluate_merge_policy strict true passed 2 ≡ ok tt) ↔ IsPermitted strict true passed 2
evaluate-eq-ok_iff_example = evaluate-eq-ok_iff strict true passed 2

-- A world is the number of merges that were made.
abbrev forgejo : Services ℕ
forgejo = record {
  may_write = λ w. ok tt;
  get_pull = λ w. ok (record { head_sha = []; mergeable = true });
  policy_for_repo = λ w. ok strict;
  commit_statuses = λ sha w. ok passed;
  list_pull_reviews = λ w. ok reviews;
  merge = λ method w. (ok (record { head_sha = []; mergeable = true }), suc w);
}

merges_once : (merge_pull forgejo (lit "squash") 0).1 ≡ 1
unfolding policy_code
merges_once = refl

merge_pull-cases_example :
    (¬ IsMergeable forgejo (lit "squash") 0
      × ((e : MergeError) × (merge_pull forgejo (lit "squash") 0 ≡ (err e, 0))))
    ⊎ (IsMergeable forgejo (lit "squash") 0
        × (merge_pull forgejo (lit "squash") 0
            ≡ (or_api (forgejo.merge (lit "squash") 0).0, (forgejo.merge (lit "squash") 0).1)))
merge_pull-cases_example = merge_pull-cases forgejo (lit "squash") 0

abbrev protect_only : UpdateMergePolicyRequest
protect_only = record {
  require_passing_actions = none;
  block_merge_when_conflicted = none;
  require_review_approvals = none;
  protect_default_branch = some true;
}

abbrev protected_only : MergePolicy
protected_only = record {
  require_passing_actions = false;
  block_merge_when_conflicted = true;
  require_review_approvals = pos 0;
  protect_default_branch = true;
  updated_at = [];
}

abbrev two_approvals : UpdateMergePolicyRequest
two_approvals = record {
  require_passing_actions = some true;
  block_merge_when_conflicted = none;
  require_review_approvals = some (pos 2);
  protect_default_branch = none;
}

-- Rust's `format`, of one text.
abbrev format : String → List Bytes → String
format text arguments = text

abbrev ours : Bytes
unfolding lit
ours = lit "ours"

abbrev theirs : Bytes
unfolding lit
theirs = lit "theirs"

abbrev table : Policies
table = (theirs, default_policy []) ∷ []

stores :
    upsert_merge_policy format none none ours two_approvals table [] table
    ≡ (ok strict, (theirs, default_policy []) ∷ (ours, strict) ∷ [])
unfolding policy_code unwrap_or
stores = refl

-- Of two updates that have read the same table, the second one undoes the first one's fields.
second_wins :
    (upsert_merge_policy format none none ours protect_only table []
      (upsert_merge_policy format none none ours two_approvals table [] table).1).1
    ≡ (theirs, default_policy []) ∷ (ours, protected_only) ∷ []
unfolding policy_code unwrap_or
second_wins = refl

upsert-IsStored_example :
    (let (answer, after) = upsert_merge_policy format none none ours two_approvals table [] table in
      ((e : ApiError) × (answer ≡ err e)
        × (after ≡ table)
        × IsRefused none none two_approvals (policy_in ours [] table))
      ⊎ ((policy : MergePolicy) × (answer ≡ ok policy)
          × IsUpdateOf two_approvals (policy_in ours [] table) policy
          × ((later : Bytes) → load_merge_policy format none ours later after ≡ ok policy)
          × ((other later : Bytes)
              → ours ≢ other
              → load_merge_policy format none other later after
                ≡ load_merge_policy format none other later table)))
upsert-IsStored_example = upsert-IsStored format none none ours two_approvals table [] table
