-- ===== src/Access/Permissions.antt =====
-- The permissions on a repository: what they imply, and that the two ways to ask for "admin" agree.
use clotho.Prelude.{
  ℕ, ◌≤◌, ◌≡◌, ◌↔◌, ◌⊎◌, inl, inr, refl, ap, ◌∙◌, Bool, true, false, Option, none, some,
  if◌then◌else◌, arith,
}
use clotho.Prelude.Bytes.{Bytes, lit, beq_iff, text_code}
use clotho.Prelude.Results.{Result, ok, err, ◌>>=◌, ◌>>◌, guard, ok_or, >>=-eq-ok, ok-injective}
use clotho.ApiErrors.{ApiError}
use clotho.Access.{
  RepoWithOrg, Database, AppState, repo_perm_rank, org_role_rank, reaches, get_repo_with_org,
  has_repo_permission, require_repo_permission, require_repo_admin,
}

-- The role and the permission that a database has of a user, where it answers.
pub record Grant (db : Database) (repo : RepoWithOrg) (user_id : Bytes) : Type 0 where
  pub role : Option Bytes
  pub is_role : db.org_role repo.org_id user_id ≡ ok role
  pub permission : Option Bytes
  pub is_permission : db.repo_permission repo.id user_id ≡ ok permission

-- What is asked for is one of the three permissions that the routes ask for, and what a user holds
-- is the same one or a stronger one.
pub data Suffices (held : Bytes) : (asked : Bytes) → Type 0 where
  for_read :
      (held ≡ lit "read") ⊎ ((held ≡ lit "write") ⊎ (held ≡ lit "admin"))
      → Suffices held (lit "read")
  for_write : (held ≡ lit "write") ⊎ (held ≡ lit "admin") → Suffices held (lit "write")
  for_admin : held ≡ lit "admin" → Suffices held (lit "admin")

pub data IsPermission : Bytes → Type 0 where
  is_read : IsPermission (lit "read")
  is_write : IsPermission (lit "write")
  is_admin : IsPermission (lit "admin")

permission_ranks :
    (repo_perm_rank (lit "read") ≡ 1)
    × (repo_perm_rank (lit "write") ≡ 2)
    × (repo_perm_rank (lit "admin") ≡ 3)
unfolding repo_perm_rank text_code
permission_ranks = (refl, refl, refl)

admin_rank : org_role_rank (lit "admin") ≡ 2
unfolding org_role_rank text_code
admin_rank = refl

-- The rank of a permission tells it apart from the weaker ones.
rank_cases :
    (held : Bytes)
    → ((1 ≤ repo_perm_rank held)
        ↔ ((held ≡ lit "read") ⊎ ((held ≡ lit "write") ⊎ (held ≡ lit "admin"))))
      × ((2 ≤ repo_perm_rank held) ↔ ((held ≡ lit "write") ⊎ (held ≡ lit "admin")))
      × ((3 ≤ repo_perm_rank held) ↔ (held ≡ lit "admin"))
unfolding repo_perm_rank
rank_cases held =
    ground
      (arith, beq_iff held (lit "read"), beq_iff held (lit "write"), beq_iff held (lit "admin"))

role_cases : (role : Bytes) → (2 ≤ org_role_rank role) ↔ (role ≡ lit "admin")
unfolding org_role_rank
role_cases role = ground (arith, beq_iff role (lit "admin"), beq_iff role (lit "member"))

rank_of_Suffices :
    {held asked : Bytes} → Suffices held asked → repo_perm_rank asked ≤ repo_perm_rank held
rank_of_Suffices {held} (for_read h) = omega (arith, permission_ranks, (rank_cases held).0.1 h)
rank_of_Suffices {held} (for_write h) = omega (arith, permission_ranks, (rank_cases held).1.1 h)
rank_of_Suffices {held} (for_admin h) = omega (arith, permission_ranks, (rank_cases held).2.1 h)

Suffices-of_rank :
    {asked : Bytes} (held : Bytes)
    → IsPermission asked
    → repo_perm_rank asked ≤ repo_perm_rank held
    → Suffices held asked
Suffices-of_rank held is_read h = for_read ((rank_cases held).0.0 (omega (arith, permission_ranks)))
Suffices-of_rank held is_write h =
    for_write ((rank_cases held).1.0 (omega (arith, permission_ranks)))
Suffices-of_rank held is_admin h =
    for_admin ((rank_cases held).2.0 (omega (arith, permission_ranks)))

held_row :
    (rank : Bytes → ℕ) (min : ℕ) (row : Option Bytes)
    → reaches rank min row ≡ true
    → (held : Bytes) × (row ≡ some held) × (min ≤ rank held)
unfolding reaches
held_row rank min none h = cc
held_row rank min (some held) h = (held, refl, ground arith)

row_reaches :
    (rank : Bytes → ℕ) (min : ℕ) (held : Bytes)
    → min ≤ rank held
    → reaches rank min (some held) ≡ true
unfolding reaches
row_reaches rank min held h = ground arith

by_rank :
    (db : Database) (repo : RepoWithOrg) (user_id min_perm : Bytes) (grant : Grant db repo user_id)
    → (has_repo_permission db repo user_id min_perm ≡ ok true) ↔ (
        (reaches org_role_rank (org_role_rank (lit "admin")) grant.role ≡ true)
        ⊎ (reaches repo_perm_rank (repo_perm_rank min_perm) grant.permission ≡ true))
unfolding has_repo_permission
by_rank db repo user_id min_perm grant = rw (grant.is_role, grant.is_permission) (ground arith)

-- Where the database answers, a user has the permission to read, write or administer a repository
-- exactly if their role in its organization is "admin", or their row for the repository names the
-- permission that is asked for or a stronger one: "admin" is stronger than "write", and "write"
-- than "read".
pub has_repo_permission-eq-true_iff :
    (db : Database) (repo : RepoWithOrg) (user_id min_perm : Bytes)
    → IsPermission min_perm
    → (grant : Grant db repo user_id)
    → (has_repo_permission db repo user_id min_perm ≡ ok true) ↔ (
        (grant.role ≡ some (lit "admin"))
        ⊎ ((held : Bytes) × (grant.permission ≡ some held) × Suffices held min_perm))
has_repo_permission-eq-true_iff db repo user_id min_perm known grant = (
  λ h. elim ((by_rank db repo user_id min_perm grant).0 h) [
    | inl r ↦
        let (role, e, ranked) = held_row org_role_rank (org_role_rank (lit "admin")) grant.role r in
        inl (e ∙ ap some ((role_cases role).0 (omega (arith, admin_rank))))
    | inr r ↦
        let (held, e, ranked) =
          held_row repo_perm_rank (repo_perm_rank min_perm) grant.permission r in
        inr (held, e, Suffices-of_rank held known ranked)
  ],
  λ h. (by_rank db repo user_id min_perm grant).1 (elim h [
    | inl e ↦ inl (rw e (row_reaches org_role_rank _ (lit "admin") (omega arith)))
    | inr (held, e, enough) ↦
        inr (rw e (row_reaches repo_perm_rank _ held (rank_of_Suffices enough)))
  ]),
)

reaches_mono :
    (rank : Bytes → ℕ) (low high : ℕ) (row : Option Bytes)
    → low ≤ high
    → reaches rank high row ≡ true
    → reaches rank low row ≡ true
unfolding reaches
reaches_mono rank low high none h e = e
reaches_mono rank low high (some row) h e = ground arith

permitted :
    (low high : ℕ) (found : Result ApiError (Option Bytes)) (admin : Bool)
    → low ≤ high
    → (if admin then ok true else (found >>= λ row. ok (reaches repo_perm_rank high row))) ≡ ok true
    → (if admin then ok true else (found >>= λ row. ok (reaches repo_perm_rank low row))) ≡ ok true
permitted low high found true h e = refl
permitted low high (err x) false h e = cc
permitted low high (ok row) false h e =
    ap ok (reaches_mono repo_perm_rank low high row h (ok-injective e))

-- Who has a permission has every permission of a lower rank.
has_repo_permission_mono :
    (db : Database) (repo : RepoWithOrg) (user_id low high : Bytes)
    → repo_perm_rank low ≤ repo_perm_rank high
    → has_repo_permission db repo user_id high ≡ ok true
    → has_repo_permission db repo user_id low ≡ ok true
unfolding has_repo_permission
has_repo_permission_mono db repo user_id low high h e =
    let (role, is_role, e1) = >>=-eq-ok (db.org_role repo.org_id user_id) _ e in
    rw is_role (
      permitted (repo_perm_rank low) (repo_perm_rank high) (db.repo_permission repo.id user_id) _ h
        e1)

same_decision :
    (repo out : RepoWithOrg) (refused refused' : ApiError) (found : Result ApiError (Option Bytes))
    (admin : Bool) (test : Option Bytes → Bool)
    → ((if admin then ok repo else (found >>= λ row. guard (test row) refused >> ok repo)) ≡ ok out)
      ↔ (((if admin then ok true else (found >>= λ row. ok (test row))) >>= λ allowed.
            guard allowed refused' >> ok repo)
          ≡ ok out)
same_decision repo out refused refused' found true test = (λ e. e, λ e. e)
same_decision repo out refused refused' (err x) false test = (λ e. e, λ e. e)
same_decision repo out refused refused' (ok row) false test = guarded (test row)
  where
    guarded :
        (b : Bool)
        → ((guard b refused >> ok repo) ≡ ok out) ↔ ((guard b refused' >> ok repo) ≡ ok out)
    guarded true = (λ e. e, λ e. e)
    guarded false = (λ e. cc, λ e. cc)

module _ (db : Database) (user_id : Bytes) (repo : RepoWithOrg) where
  -- The two decisions, from what the lookups return on.
  agree_from_role :
      (r : RepoWithOrg) (refused refused' : ApiError) (role : Result ApiError (Option Bytes))
      → ((role >>= λ o.
            if reaches org_role_rank (org_role_rank (lit "admin")) o
            then ok r
            else (db.repo_permission r.id user_id >>= λ row.
                guard (reaches repo_perm_rank (repo_perm_rank (lit "admin")) row) refused >> ok r))
          ≡ ok repo)
        ↔ (((role >>= λ o.
                if reaches org_role_rank (org_role_rank (lit "admin")) o
                then ok true
                else (db.repo_permission r.id user_id >>= λ row.
                    ok (reaches repo_perm_rank (repo_perm_rank (lit "admin")) row)))
              >>= λ allowed. guard allowed refused' >> ok r)
            ≡ ok repo)
  agree_from_role r refused refused' (err e) = (λ h. h, λ h. h)
  agree_from_role r refused refused' (ok role) =
      same_decision r repo refused refused' (db.repo_permission r.id user_id)
        (reaches org_role_rank (org_role_rank (lit "admin")) role)
        (reaches repo_perm_rank (repo_perm_rank (lit "admin")))

  agree_from_repo :
      (missing refused refused' : ApiError) (found : Result ApiError (Option RepoWithOrg))
      → ((do
        o ← found
        r ← ok_or o missing
        role ← db.org_role r.org_id user_id
        if reaches org_role_rank (org_role_rank (lit "admin")) role
            then ok r
            else (db.repo_permission r.id user_id >>= λ row.
                guard (reaches repo_perm_rank (repo_perm_rank (lit "admin")) row) refused >> ok r))
          ≡ ok repo)
        ↔ ((do
          o ← found
          r ← ok_or o missing
          allowed ← has_repo_permission db r user_id (lit "admin")
          guard allowed refused'
          ok r)
            ≡ ok repo)
  unfolding has_repo_permission
  agree_from_repo missing refused refused' (err e) = (λ h. h, λ h. h)
  agree_from_repo missing refused refused' (ok none) = (λ h. h, λ h. h)
  agree_from_repo missing refused refused' (ok (some r)) =
      agree_from_role r refused refused' (db.org_role r.org_id user_id)

-- `require_repo_admin` lets in exactly those whom `require_repo_permission` lets in for "admin".
pub require_repo_admin-agrees :
    (state : AppState) (db : Database) (repo_name user_id : Bytes) (repo : RepoWithOrg)
    → (require_repo_admin state db repo_name user_id ≡ ok repo)
      ↔ (require_repo_permission state db repo_name user_id (lit "admin") ≡ ok repo)
unfolding require_repo_admin require_repo_permission
require_repo_admin-agrees state db repo_name user_id repo =
    agree_from_repo db user_id repo _ _ _ (get_repo_with_org db repo_name)
