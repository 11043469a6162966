-- ===== src/MergePolicy.antt =====
-- crates/clotho-api-gateway/src/merge_policy.rs, and `merge_pull` of pulls.rs beside it: which pull
-- requests may be merged. Forgejo and Postgres are arguments of the merge: what they answer, and for
-- the merge itself also what it does to the world.
pub mod Evaluation
pub mod Reviews
pub mod Merging
pub mod Policies
pub mod Storage
mod Tests
use Prim.Native.String.{String}
use clotho.Prelude.{
  ℕ, ◌+◌, ◌≡◌, Bool, true, false, not, ◌&&◌, ◌||◌, Option, none, some, List, [], ◌∷◌, if◌then◌else◌,
}
use clotho.Prelude.Bytes.{Bytes, lit, is_empty, beq, to_ascii_lowercase, eq_ignore_ascii_case}
use clotho.Prelude.Int.{ℤ, pos, ltb_ℤ}
use clotho.Prelude.Results.{Result, ok, err, ◌>>=◌, ◌>>◌, guard}
use clotho.ApiErrors.{ApiError, internal, invalid_request}

pub record MergePolicy : Type 0 where
  pub require_passing_actions : Bool
  pub block_merge_when_conflicted : Bool
  pub require_review_approvals : ℤ
  pub protect_default_branch : Bool
  pub updated_at : Bytes

-- `MergePolicy::default` at the time `now`.
unfoldable pub default_policy : (now : Bytes) → MergePolicy
default_policy now = record {
  require_passing_actions = false;
  block_merge_when_conflicted = true;
  require_review_approvals = pos 0;
  protect_default_branch = false;
  updated_at = now;
}

pub record UpdateMergePolicyRequest : Type 0 where
  pub require_passing_actions : Option Bool
  pub block_merge_when_conflicted : Option Bool
  pub require_review_approvals : Option ℤ
  pub protect_default_branch : Option Bool

-- The fields of `CommitStatusInfo` and of `ReviewInfo` that a decision reads.
pub record CommitStatusInfo : Type 0 where
  pub state : Bytes
  pub context : Bytes

pub record ReviewInfo : Type 0 where
  pub login : Bytes
  pub state : Bytes

-- The formats of the messages, with what is written into them.
pub data BlockReason : Type 0 where
  has_conflicts no_status : BlockReason
  check_reported : (ctx state : Bytes) → BlockReason
  check_pending : (ctx : Bytes) → BlockReason
  too_few_approvals : (required : ℤ) → (found : ℕ) → BlockReason

unfoldable pub check_name : Bytes → Bytes
check_name context = if is_empty context then lit "check" else context

-- One status in the loop, with its state in lower case and with what the rest of the loop returns.
check_state :
    (context state : Bytes) → Result BlockReason (Unit {0}) → Result BlockReason (Unit {0})
unfolding check_name
check_state context state rest =
    if beq state (lit "failure") || beq state (lit "error")
    then err (check_reported (check_name context) state)
    else if beq state (lit "pending")
    then err (check_pending (check_name context))
    else rest

check_statuses : List CommitStatusInfo → Result BlockReason (Unit {0})
unfolding check_state
check_statuses [] = ok tt
check_statuses (status ∷ statuses) =
    check_state status.context (to_ascii_lowercase status.state) (check_statuses statuses)

passing_actions : List CommitStatusInfo → Result BlockReason (Unit {0})
unfolding check_statuses
passing_actions [] = err no_status
passing_actions (status ∷ statuses) = check_statuses (status ∷ statuses)

unfoldable pub evaluate_merge_policy :
    MergePolicy
    → (mergeable : Bool) → List CommitStatusInfo
    → (approval_count : ℕ) → Result BlockReason (Unit {0})
unfolding passing_actions
evaluate_merge_policy policy mergeable statuses approval_count = do
  guard (not (policy.block_merge_when_conflicted && not mergeable)) has_conflicts
  if policy.require_passing_actions then passing_actions statuses else ok tt
  if ltb_ℤ (pos 0) policy.require_review_approvals
        && ltb_ℤ (pos approval_count) policy.require_review_approvals
      then err (too_few_approvals policy.require_review_approvals approval_count)
      else ok tt

-- Whether the set of logins has one.
unfoldable pub seen_before : Bytes → List Bytes → Bool
seen_before login [] = false
seen_before login (x ∷ seen) = beq login x || seen_before login seen

unfoldable pub is_approval : ReviewInfo → Bool
is_approval review = eq_ignore_ascii_case review.state (lit "APPROVED")

-- The loop of `count_approving_reviews`, from the logins that have been seen.
unfoldable pub count_from : (seen : List Bytes) → List ReviewInfo → ℕ
unfolding seen_before is_approval
count_from seen [] = 0
count_from seen (review ∷ reviews) =
    let skipped = count_from seen reviews in
    let counted = count_from (review.login ∷ seen) reviews in
    if seen_before review.login seen
    then skipped
    else if is_approval review
    then 1 + counted
    else counted

unfoldable pub count_approving_reviews : List ReviewInfo → ℕ
unfolding count_from
count_approving_reviews reviews = count_from [] reviews

-- The fields of `PullInfo` that the handler reads.
pub record PullInfo : Type 0 where
  pub head_sha : Bytes
  pub mergeable : Bool

-- What the handler asks of Forgejo and of Postgres. The policy is that of `merge_policy_for_repo`.
pub record Services (World : Type 0) : Type 0 where
  pub may_write : World → Result ApiError (Unit {0})
  pub get_pull : World → Result ApiError PullInfo
  pub policy_for_repo : World → Result ApiError MergePolicy
  pub commit_statuses : Bytes → World → Result ApiError (List CommitStatusInfo)
  pub list_pull_reviews : World → Result ApiError (List ReviewInfo)
  pub merge : (method : Bytes) → World → Result ApiError PullInfo × World

-- `blocked` is `ApiError::Conflict` with the reason's message.
pub data MergeError : Type 0 where
  api : ApiError → MergeError
  blocked : BlockReason → MergeError

or_default : {A : Type 0} → Result ApiError (List A) → List A
or_default (ok xs) = xs
or_default (err e) = []

abbrev pub or_api : {A : Type 0} → Result ApiError A → Result MergeError A
or_api (ok a) = ok a
or_api (err e) = err (api e)

abbrev pub or_blocked : {A : Type 0} → Result BlockReason A → Result MergeError A
or_blocked (ok a) = ok a
or_blocked (err reason) = err (blocked reason)

unfoldable pub is_method : Bytes → Bool
is_method method =
    beq method (lit "merge")
    || (beq method (lit "rebase") || (beq method (lit "rebase-merge") || beq method (lit "squash")))

module _ {World : Type 0} (services : Services World) where
  unfoldable pub approvals : World → ℕ
  unfolding or_default
  approvals w = count_approving_reviews (or_default (services.list_pull_reviews w))

  unfoldable pub statuses_of : PullInfo → World → List CommitStatusInfo
  unfolding or_default
  statuses_of pull w = or_default (services.commit_statuses pull.head_sha w)

  -- `merge_pull` up to the merge; `method` is the request's, trimmed.
  unfoldable pub checks : (method : Bytes) → World → Result MergeError (Unit {0})
  unfolding is_method approvals statuses_of
  checks method w = do
    or_api (services.may_write w)
    guard (is_method method)
        (api (invalid_request "method must be merge, rebase, rebase-merge, or squash"))
    pull ← or_api (services.get_pull w)
    policy ← or_api (services.policy_for_repo w)
    or_blocked (evaluate_merge_policy policy pull.mergeable (statuses_of pull w) (approvals w))

  merged : Result ApiError PullInfo × World → Result MergeError PullInfo × World
  merged (r, w) = (or_api r, w)

  checked :
      Result MergeError (Unit {0}) → (method : Bytes) → World → Result MergeError PullInfo × World
  unfolding merged
  checked (err e) method w = (err e, w)
  checked (ok u) method w = merged (services.merge method w)

  unfoldable pub merge_pull : (method : Bytes) → World → Result MergeError PullInfo × World
  unfolding checks checked
  merge_pull method w = checked (checks method w) method w
