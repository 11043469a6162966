-- ===== src/MergePolicy/Policies.antt =====
-- The table of policies of merge_policy.rs, which the two statements of `upsert_merge_policy` read
-- and change; either may fail.
use Prim.Native.String.{String}
use clotho.Prelude.{not, Option, none, some, List, [], ◌∷◌, if◌then◌else◌}
use clotho.Prelude.Bytes.{Bytes, beq}
use clotho.Prelude.Int.{pos, ltb_ℤ}
use clotho.Prelude.Results.{Result, ok, err, ◌>>=◌, ◌>>◌, guard}
use clotho.ApiErrors.{ApiError, internal, invalid_request}
use clotho.MergePolicy.{MergePolicy, UpdateMergePolicyRequest, default_policy}

unfoldable pub unwrap_or : {A : Type 0} → Option A → A → A
unwrap_or none d = d
unwrap_or (some a) d = a

-- The policy that a request makes of the current one at the time `now`.
unfoldable pub updated_policy :
    (current : MergePolicy) → UpdateMergePolicyRequest → (now : Bytes) → Result ApiError MergePolicy
unfolding unwrap_or
updated_policy current req now = do
  let approvals = unwrap_or req.require_review_approvals current.require_review_approvals
  guard (not (ltb_ℤ approvals (pos 0))) (invalid_request "require_review_approvals must be >= 0")
  ok (record {
    require_passing_actions = unwrap_or req.require_passing_actions current.require_passing_actions;
    block_merge_when_conflicted =
        unwrap_or req.block_merge_when_conflicted current.block_merge_when_conflicted;
    require_review_approvals = approvals;
    protect_default_branch = unwrap_or req.protect_default_branch current.protect_default_branch;
    updated_at = now;
  })

-- The table `repo_merge_policies`, whose primary key is the id of the repository.
abbrev pub Policies : Type 0
Policies = List (Bytes × MergePolicy)

unfoldable pub row_of : (repo_id : Bytes) → Policies → Option MergePolicy
row_of repo_id [] = none
row_of repo_id ((id, policy) ∷ rows) =
    let later = row_of repo_id rows in if beq id repo_id then some policy else later

-- `insert ... on conflict (repo_id) do update`.
unfoldable pub upsert_row : (repo_id : Bytes) → MergePolicy → Policies → Policies
upsert_row repo_id policy [] = (repo_id, policy) ∷ []
upsert_row repo_id policy ((id, old) ∷ rows) =
    let later = upsert_row repo_id policy rows in
    if beq id repo_id then (id, policy) ∷ rows else (id, old) ∷ later

-- `format` is Rust's, and a statement fails with the text of an error of Postgres.
module _ (format : String → List Bytes → String) where
  unfoldable pub load_merge_policy :
      (failure : Option Bytes) → (repo_id now : Bytes) → Policies → Result ApiError MergePolicy
  unfolding row_of unwrap_or
  load_merge_policy (some e) repo_id now table =
      err (internal (format "load merge policy: {}" (e ∷ [])))
  load_merge_policy none repo_id now table =
      ok (unwrap_or (row_of repo_id table) (default_policy now))

  unfoldable pub store_policy :
      (failure : Option Bytes)
      → (repo_id : Bytes) → Result ApiError MergePolicy
      → Policies
      → Result ApiError MergePolicy × Policies
  unfolding upsert_row
  store_policy failure repo_id (err e) table = (err e, table)
  store_policy (some e) repo_id (ok policy) table =
      (err (internal (format "upsert merge policy: {}" (e ∷ []))), table)
  store_policy none repo_id (ok policy) table = (ok policy, upsert_row repo_id policy table)

  -- The two statements are not one transaction: `read` is the table at the time of the first one,
  -- and `table` that at the time `now` of the second.
  unfoldable pub upsert_merge_policy :
      (load_failure failure : Option Bytes)
      → (repo_id : Bytes) → UpdateMergePolicyRequest
      → (read : Policies) → (now : Bytes) → (table : Policies)
      → Result ApiError MergePolicy × Policies
  unfolding load_merge_policy updated_policy store_policy
  upsert_merge_policy load_failure failure repo_id req read now table =
      store_policy failure repo_id
        (load_merge_policy load_failure repo_id now read >>= λ current.
          updated_policy current req now)
        table
