-- ===== src/Access.antt =====
-- crates/clotho-api-gateway/src: who may read, write and administer a repository, from the request's
-- Authorization header on (auth.rs, agent_rest.rs, and the permissions of control.rs).
pub mod Routes
pub mod Permissions
pub mod Reading
pub mod Agents
mod Tests
use Prim.Native.String.{String}
use clotho.Prelude.{
  ℕ, Bool, true, false, not, ◌||◌, ◌&&◌, Option, none, some, List, [], ◌∷◌, leb, ltb, ◌==◌,
  if◌then◌else◌,
}
use clotho.Prelude.Bytes.{Bytes, lit, is_empty, beq, strip_prefix}
use clotho.Prelude.Http.{Header, absent, not_ascii, value}
use clotho.Prelude.Results.{Result, ok, err, ◌>>=◌, ◌>>◌, guard, ok_or}
use clotho.ApiErrors.{ApiError, not_found, upstream, internal, unauthorized, forbidden}

-- The columns of `RepoWithOrg` that a decision reads.
pub record RepoWithOrg : Type 0 where
  pub id : Bytes
  pub org_id : Bytes
  pub visibility : Bytes

pub record AuthContext : Type 0 where
  pub user_id : Bytes
  pub user_name : Bytes

pub record AuthorizedAgent : Type 0 where
  pub agent_id : Bytes
  pub token_id : Bytes
  pub agent : Bytes
  pub allowed_repos : List Bytes

pub data AuthorizedRepoActor : Type 0 where
  human_actor : AuthContext → AuthorizedRepoActor
  agent_actor : AuthorizedAgent → AuthorizedRepoActor

-- Postgres: the rows of the three queries.
pub record Database : Type 0 where
  pub repos_named : (name : Bytes) → Result ApiError (List RepoWithOrg)
  pub org_role : (org_id user_id : Bytes) → Result ApiError (Option Bytes)
  pub repo_permission : (repo_id user_id : Bytes) → Result ApiError (Option Bytes)

-- The agent gateway's answer: the error of a request without one, or a status and a body that is
-- read as an agent's.
pub data AgentReply : Type 0 where
  no_reply : (error : Bytes) → AgentReply
  reply : (status : ℕ) (body : Result Bytes AuthorizedAgent) → AgentReply

-- `AppState`, as far as it is read: `resolve` is the configured `AuthProvider`, `send` the request to
-- the agent gateway, and `format` is Rust's.
pub record AppState : Type 0 where
  pub auth_required : Bool
  pub pool : Option Database
  pub resolve : Header → Result ApiError AuthContext
  pub agents_configured : Bool
  pub send : (token repo tool : Bytes) → AgentReply
  pub format : String → List Bytes → String

is_blank : ℕ → Bool
is_blank c = (c == 32) || (c == 9)

trim_start : Bytes → Bytes
unfolding is_blank
trim_start [] = []
trim_start (c ∷ cs) = if is_blank c then trim_start cs else c ∷ cs

trim_end : Bytes → Bytes
unfolding is_blank
trim_end [] = []
trim_end (c ∷ cs) = let rest = trim_end cs in if is_blank c && is_empty rest then [] else c ∷ rest

-- A token that is not empty.
token_of : Bytes → Option Bytes
token_of [] = none
token_of (c ∷ cs) = some (c ∷ cs)

after_prefix : Option Bytes → Option Bytes
unfolding token_of trim_start trim_end
after_prefix none = none
after_prefix (some rest) = token_of (trim_end (trim_start rest))

unfoldable pub extract_bearer : Header → Option Bytes
unfolding after_prefix
extract_bearer absent = none
extract_bearer not_ascii = none
extract_bearer (value s) = after_prefix (strip_prefix (lit "Bearer ") s)

unfoldable pub has_authorization : Header → Bool
has_authorization absent = false
has_authorization not_ascii = true
has_authorization (value s) = true

unfoldable pub org_role_rank : Bytes → ℕ
org_role_rank role = if beq role (lit "admin") then 2 else if beq role (lit "member") then 1 else 0

unfoldable pub repo_perm_rank : Bytes → ℕ
repo_perm_rank perm =
    if beq perm (lit "admin")
    then 3
    else if beq perm (lit "write")
    then 2
    else if beq perm (lit "read")
    then 1
    else 0

-- Two rows are an ambiguous name.
unfoldable pub single_repo : List RepoWithOrg → Option RepoWithOrg
single_repo [] = none
single_repo (r ∷ []) = some r
single_repo (r ∷ _ ∷ _) = none

unfoldable pub get_repo_with_org : Database → Bytes → Result ApiError (Option RepoWithOrg)
unfolding single_repo
get_repo_with_org db name = do rows ← db.repos_named name; ok (single_repo rows)

-- Whether the row has a rank of at least `min`.
unfoldable pub reaches : (rank : Bytes → ℕ) → (min : ℕ) → Option Bytes → Bool
reaches rank min none = false
reaches rank min (some row) = leb min (rank row)

unfoldable pub has_repo_permission :
    Database → RepoWithOrg → (user_id min_perm : Bytes) → Result ApiError Bool
unfolding reaches org_role_rank repo_perm_rank
has_repo_permission db repo user_id min_perm = do
  role ← db.org_role repo.org_id user_id
  if reaches org_role_rank (org_role_rank (lit "admin")) role
      then ok true
      else db.repo_permission repo.id user_id >>= λ permission.
          ok (reaches repo_perm_rank (repo_perm_rank min_perm) permission)

module _ (state : AppState) where
  no_repo : Bytes → ApiError
  no_repo name = not_found (state.format "repo {:?} not found" (name ∷ []))

  role_row : (min_role : Bytes) → Option Bytes → Result ApiError (Unit {0})
  unfolding org_role_rank
  role_row min_role none = err (forbidden (state.format "requires org {} role" (min_role ∷ [])))
  role_row min_role (some role) =
      guard (leb (org_role_rank min_role) (org_role_rank role))
        (forbidden (state.format "requires org {} role (have {})" (min_role ∷ role ∷ [])))

  unfoldable pub require_org_role :
      Database → (org_id user_id min_role : Bytes) → Result ApiError (Unit {0})
  unfolding role_row
  require_org_role db org_id user_id min_role = do
    row ← db.org_role org_id user_id
    role_row min_role row

  unfoldable pub require_repo_permission :
      Database → (repo_name user_id min_perm : Bytes) → Result ApiError RepoWithOrg
  unfolding get_repo_with_org has_repo_permission no_repo
  require_repo_permission db repo_name user_id min_perm = do
    found ← get_repo_with_org db repo_name
    repo ← ok_or found (no_repo repo_name)
    allowed ← has_repo_permission db repo user_id min_perm
    guard allowed (forbidden (state.format "requires repo {} permission" (min_perm ∷ [])))
    ok repo

  unfoldable pub require_repo_admin :
      Database → (repo_name user_id : Bytes) → Result ApiError RepoWithOrg
  unfolding get_repo_with_org reaches org_role_rank repo_perm_rank no_repo
  require_repo_admin db repo_name user_id = do
    found ← get_repo_with_org db repo_name
    repo ← ok_or found (no_repo repo_name)
    role ← db.org_role repo.org_id user_id
    if reaches org_role_rank (org_role_rank (lit "admin")) role
        then ok repo
        else db.repo_permission repo.id user_id >>= λ permission.
            guard (reaches repo_perm_rank (repo_perm_rank (lit "admin")) permission)
              (forbidden "requires org admin or repo admin")
            >> ok repo
