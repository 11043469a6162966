-- ===== src/MergePolicy/Storage.antt =====
-- The stored policies: what an update leaves in the table, and which policies there can be.
use Prim.Native.String.{String}
use clotho.Prelude.{
  ◌≡◌, ◌≢◌, ◌⊎◌, inl, inr, refl, true, false, Option, none, some, List, [], ◌∷◌, arith, Bool-cases,
}
use clotho.Prelude.Bytes.{Bytes, beq, beq_iff, beq_refl}
use clotho.Prelude.Int.{ℤ, pos, negsuc, ◌≤ℤ◌, ltb_ℤ}
use clotho.Prelude.Results.{ok, err}
use clotho.ApiErrors.{ApiError, invalid_request}
use clotho.MergePolicy.{MergePolicy, UpdateMergePolicyRequest, default_policy}
use clotho.MergePolicy.Policies.{
  unwrap_or, updated_policy, Policies, row_of, upsert_row, load_merge_policy, store_policy,
  upsert_merge_policy,
}

row_of-upsert_row :
    (repo_id : Bytes) (policy : MergePolicy) (table : Policies)
    → row_of repo_id (upsert_row repo_id policy table) ≡ some policy
unfolding row_of upsert_row
row_of-upsert_row repo_id policy [] = rw (beq_refl repo_id) refl
row_of-upsert_row repo_id policy ((id, old) ∷ rows) = elim (Bool-cases (beq id repo_id)) [
  | inl same ↦ rw (same, same) refl
  | inr differs ↦ rw (differs, differs) (row_of-upsert_row repo_id policy rows)
]

differs_from : (a b : Bytes) → a ≢ b → beq a b ≡ false
differs_from a b ne = elim (Bool-cases (beq a b)) [
  | inl same ↦ absurd (ne ((beq_iff a b).0 same))
  | inr differs ↦ differs
]

row_of-upsert_ne :
    (repo_id other : Bytes) (policy : MergePolicy) (table : Policies)
    → repo_id ≢ other
    → row_of other (upsert_row repo_id policy table) ≡ row_of other table
unfolding row_of upsert_row
row_of-upsert_ne repo_id other policy [] ne = rw (differs_from repo_id other ne) refl
row_of-upsert_ne repo_id other policy ((id, old) ∷ rows) ne =
    let rest = row_of-upsert_ne repo_id other policy rows ne in
    let apart = differs_from repo_id other ne in
    elim (Bool-cases (beq id repo_id)) [
      | inl same ↦ let e = (beq_iff id repo_id).0 same in rw (same, e, apart) refl
      | inr differs ↦ rw (differs, rest) refl
    ]

abbrev pub IsNonnegative : MergePolicy → Type 0
IsNonnegative policy = pos 0 ≤ℤ policy.require_review_approvals

nonnegative : (n : ℤ) → ltb_ℤ n (pos 0) ≡ false → pos 0 ≤ℤ n
nonnegative (pos n) h = ground arith
nonnegative (negsuc n) h = ground arith

negative : (n : ℤ) → ltb_ℤ n (pos 0) ≡ true → ¬ (pos 0 ≤ℤ n)
negative (pos n) h = ground arith
negative (negsuc n) h = ground arith

-- What a field is after an update that may name it.
abbrev pub IsUpdated : {A : Type 0} → (named : Option A) → (old new : A) → Type 0
IsUpdated none old new = new ≡ old
IsUpdated (some a) old new = new ≡ a

unwrap_or-IsUpdated :
    {A : Type 0} (named : Option A) (old : A) → IsUpdated named old (unwrap_or named old)
unfolding unwrap_or
unwrap_or-IsUpdated none old = refl
unwrap_or-IsUpdated (some a) old = refl

-- `new` is `old` but for the fields that the request names.
pub record IsUpdateOf (req : UpdateMergePolicyRequest) (old new : MergePolicy) : Type 0 where
  pub passing :
      IsUpdated req.require_passing_actions old.require_passing_actions new.require_passing_actions
  pub conflicted :
      IsUpdated req.block_merge_when_conflicted old.block_merge_when_conflicted
        new.block_merge_when_conflicted
  pub reviews :
      IsUpdated req.require_review_approvals old.require_review_approvals
        new.require_review_approvals
  pub protected :
      IsUpdated req.protect_default_branch old.protect_default_branch new.protect_default_branch
  pub at_least_0 : IsNonnegative new

abbrev asked : MergePolicy → UpdateMergePolicyRequest → (now : Bytes) → MergePolicy
asked current req now = record {
  require_passing_actions = unwrap_or req.require_passing_actions current.require_passing_actions;
  block_merge_when_conflicted =
      unwrap_or req.block_merge_when_conflicted current.block_merge_when_conflicted;
  require_review_approvals =
      unwrap_or req.require_review_approvals current.require_review_approvals;
  protect_default_branch = unwrap_or req.protect_default_branch current.protect_default_branch;
  updated_at = now;
}

updated_cases :
    (current : MergePolicy) (req : UpdateMergePolicyRequest) (now : Bytes)
    → ((e : ApiError) × (updated_policy current req now ≡ err e)
        × ¬ (pos 0 ≤ℤ unwrap_or req.require_review_approvals current.require_review_approvals))
      ⊎ ((policy : MergePolicy) × (updated_policy current req now ≡ ok policy)
          × IsUpdateOf req current policy)
unfolding updated_policy
updated_cases current req now =
    let approvals = unwrap_or req.require_review_approvals current.require_review_approvals in
    elim (Bool-cases (ltb_ℤ approvals (pos 0))) [
      | inl below ↦ inl (
        invalid_request "require_review_approvals must be >= 0",
        rw below refl,
        negative approvals below,
      )
      | inr fits ↦ inr (
        asked current req now,
        rw fits refl,
        record {
          passing = unwrap_or-IsUpdated req.require_passing_actions current.require_passing_actions;
          conflicted =
              unwrap_or-IsUpdated req.block_merge_when_conflicted
                current.block_merge_when_conflicted;
          reviews =
              unwrap_or-IsUpdated req.require_review_approvals current.require_review_approvals;
          protected = unwrap_or-IsUpdated req.protect_default_branch current.protect_default_branch;
          at_least_0 = nonnegative approvals fits;
        },
      )
    ]

-- The policy that a repository has by a table: the default where there is no row.
abbrev pub policy_in : (repo_id now : Bytes) → Policies → MergePolicy
policy_in repo_id now table = unwrap_or (row_of repo_id table) (default_policy now)

-- A statement fails, or the policy would require a negative number of approvals.
abbrev pub IsRefused :
    (load_failure failure : Option Bytes)
    → UpdateMergePolicyRequest
    → (current : MergePolicy) → Type 0
IsRefused load_failure failure req current =
    ((load_failure ≢ none) ⊎ (failure ≢ none))
    ⊎ ¬ (pos 0 ≤ℤ unwrap_or req.require_review_approvals current.require_review_approvals)

module _ (format : String → List Bytes → String) where
  store_cases :
      (failure : Option Bytes) (repo_id : Bytes) (policy : MergePolicy) (table : Policies)
      → (let (answer, after) = store_policy format failure repo_id (ok policy) table in
          ((e : ApiError) × (answer ≡ err e) × (after ≡ table) × (failure ≢ none))
          ⊎ ((answer ≡ ok policy) × (after ≡ upsert_row repo_id policy table)))
  unfolding store_policy
  store_cases (some e) repo_id policy table = inl (_, refl, refl, λ h. cc)
  store_cases none repo_id policy table = inr (refl, refl)

  upsert_cases :
      (load_failure failure : Option Bytes) (repo_id : Bytes) (req : UpdateMergePolicyRequest)
      (read : Policies) (now : Bytes) (table : Policies)
      → (let (answer, after) =
            upsert_merge_policy format load_failure failure repo_id req read now table in
          ((e : ApiError) × (answer ≡ err e)
            × (after ≡ table)
            × IsRefused load_failure failure req (policy_in repo_id now read))
          ⊎ ((policy : MergePolicy) × (answer ≡ ok policy)
              × IsUpdateOf req (policy_in repo_id now read) policy
              × (after ≡ upsert_row repo_id policy table)))
  unfolding upsert_merge_policy load_merge_policy store_policy
  upsert_cases (some e) failure repo_id req read now table =
      inl (_, refl, refl, inl (inl (λ h. cc)))
  upsert_cases none failure repo_id req read now table =
      elim (updated_cases (policy_in repo_id now read) req now) [
        | inl (e, refused, below) ↦ inl (e, rw refused refl, rw refused refl, inr below)
        | inr (policy, chosen, updated) ↦ elim (store_cases failure repo_id policy table) [
          | inl (e, answer, after, failed) ↦
              inl (e, rw chosen answer, rw chosen after, inl (inr failed))
          | inr (answer, after) ↦ inr (policy, rw chosen answer, updated, rw chosen after)
        ]
      ]

  -- An update fails only if a statement fails or the policy would require a negative number of
  -- approvals, and it then leaves the table as it is. Else the repository has exactly the policy
  -- that was returned, which is the one that was read but for the fields that the request names,
  -- and every other repository has the policy it had, a default one included.
  pub upsert-IsStored :
      (load_failure failure : Option Bytes) (repo_id : Bytes) (req : UpdateMergePolicyRequest)
      (read : Policies) (now : Bytes) (table : Policies)
      → (let (answer, after) =
            upsert_merge_policy format load_failure failure repo_id req read now table in
          ((e : ApiError) × (answer ≡ err e)
            × (after ≡ table)
            × IsRefused load_failure failure req (policy_in repo_id now read))
          ⊎ ((policy : MergePolicy) × (answer ≡ ok policy)
              × IsUpdateOf req (policy_in repo_id now read) policy
              × ((later : Bytes) → load_merge_policy format none repo_id later after ≡ ok policy)
              × ((other later : Bytes)
                  → repo_id ≢ other
                  → load_merge_policy format none other later after
                    ≡ load_merge_policy format none other later table)))
  unfolding load_merge_policy unwrap_or
  upsert-IsStored load_failure failure repo_id req read now table =
      elim (upsert_cases load_failure failure repo_id req read now table) [
        | inl refused ↦ inl refused
        | inr (policy, answer, updated, after) ↦ inr (
          policy,
          answer,
          updated,
          λ later. rw (after, row_of-upsert_row repo_id policy table) refl,
          λ other later ne. rw (after, row_of-upsert_ne repo_id other policy table ne) refl,
        )
      ]
