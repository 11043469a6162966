-- ===== src/Access/Tests.antt =====
-- Requests of a person and of an agent for one private repository.
use clotho.Prelude.{
  ◌≤◌, ◌≡◌, ◌≢◌, ◌↔◌, ◌⊎◌, refl, true, false, Option, none, some, [], ◌∷◌, if◌then◌else◌, arith,
}
use clotho.Prelude.Bytes.{Bytes, lit, is_empty, beq, text_code}
use clotho.Prelude.Http.{Header, absent, value}
use clotho.Prelude.Results.{Result, ok, err}
use clotho.ApiErrors.{ApiError, unauthorized, forbidden}
use clotho.Access.{
  RepoWithOrg, AuthContext, AuthorizedAgent, agent_actor, Database, reply, AppState, extract_bearer,
  has_authorization, repo_perm_rank, has_repo_permission, require_repo_permission,
  require_repo_admin,
}
use clotho.Access.Permissions.{
  Suffices, is_read, has_repo_permission-eq-true_iff, require_repo_admin-agrees,
}
use clotho.Access.Routes.{
  hidden_repo, agent_token, resolve_optional_human_auth, require_repo_read,
  require_repo_read_for_tool, require_repo_write_for_tool,
}
use clotho.Access.Reading.{MayRead, no_person, require_repo_read-MayRead, require_repo_read-hidden}
use clotho.Access.Agents.{require_repo_write-agent}

access_code : Unit {0}
unfolding has_authorization extract_bearer has_repo_permission require_repo_admin
    require_repo_read_for_tool require_repo_write_for_tool require_repo_read agent_token text_code
access_code = tt

abbrev repo : RepoWithOrg
unfolding lit
repo = record { id = lit "r"; org_id = lit "o"; visibility = lit "private" }

-- "ann" may write, and nobody else has anything.
abbrev permission_of : (repo_id user_id : Bytes) → Result ApiError (Option Bytes)
permission_of repo_id user_id = ok (if beq user_id (lit "ann") then some (lit "write") else none)

abbrev db : Database
unfolding permission_of
db = record {
  repos_named = λ name. ok (repo ∷ []);
  org_role = λ org_id user_id. ok none;
  repo_permission = permission_of;
}

abbrev agent : AuthorizedAgent
unfolding lit
agent = record { agent_id = lit "a"; token_id = lit "t"; agent = lit "weaver"; allowed_repos = [] }

abbrev ann : AuthContext
unfolding lit
ann = record { user_id = lit "ann"; user_name = lit "Ann" }

-- The gateway lets the agent merge and nothing else.
abbrev state : AppState
state = record {
  auth_required = true;
  pool = some db;
  resolve = λ headers. ok ann;
  agents_configured = true;
  send =
      λ token repo_name tool. reply (if beq tool (lit "merge_pull") then 200 else 403) (ok agent);
  format = λ text args. text;
}

abbrev agent_header : Header
unfolding lit
agent_header = value (lit "Bearer clotho_agt_1 ")

reads_as_ann : require_repo_read state (value (lit "Bearer x")) (lit "r") ≡ ok repo
unfolding access_code
reads_as_ann = refl

merges_as_agent :
    require_repo_write_for_tool state agent_header (lit "r") (lit "merge_pull")
    ≡ ok (repo, agent_actor agent)
unfolding access_code
merges_as_agent = refl

no_admin :
    require_repo_admin state db (lit "r") (lit "ann")
    ≡ err (forbidden "requires org admin or repo admin")
unfolding access_code
no_admin = refl

bad_header :
    require_repo_read state (value (lit "Basic x")) (lit "r")
    ≡ err (unauthorized "invalid Authorization header; expected Bearer <token>")
unfolding access_code
bad_header = refl

ann_writes : has_repo_permission db repo (lit "ann") (lit "write") ≡ ok true
unfolding access_code
ann_writes = refl

has_repo_permission-eq-true_iff_example :
    (has_repo_permission db repo (lit "ann") (lit "read") ≡ ok true) ↔ (
      (none ≡ some (lit "admin"))
      ⊎ ((held : Bytes) × ((if beq (lit "ann") (lit "ann") then some (lit "write") else none)
            ≡ some held)
          × Suffices held (lit "read")))
has_repo_permission-eq-true_iff_example =
    has_repo_permission-eq-true_iff db repo (lit "ann") (lit "read") is_read (record {
      role = none;
      is_role = refl;
      permission = if beq (lit "ann") (lit "ann") then some (lit "write") else none;
      is_permission = refl;
    })

read_below_write : repo_perm_rank (lit "read") ≤ repo_perm_rank (lit "write")
unfolding access_code repo_perm_rank
read_below_write = omega arith

require_repo_admin-agrees_example :
    (require_repo_admin state db (lit "r") (lit "ann") ≡ ok repo)
    ↔ (require_repo_permission state db (lit "r") (lit "ann") (lit "admin") ≡ ok repo)
require_repo_admin-agrees_example = require_repo_admin-agrees state db (lit "r") (lit "ann") repo

require_repo_read-MayRead_example :
    (db.repos_named (lit "r") ≡ ok (repo ∷ []))
    × ((who : Option AuthContext) × (resolve_optional_human_auth state (value (lit "Bearer x"))
          ≡ ok who)
        × MayRead db repo who)
require_repo_read-MayRead_example =
    require_repo_read-MayRead state db (value (lit "Bearer x")) (lit "r") repo refl reads_as_ann

private_ : repo.visibility ≢ lit "public"
unfolding lit
private_ = λ h. cc

nobody : resolve_optional_human_auth state absent ≡ ok none
unfolding resolve_optional_human_auth has_authorization
nobody = refl

require_repo_read-hidden_example : require_repo_read state absent (lit "r") ≡ err hidden_repo
require_repo_read-hidden_example =
    require_repo_read-hidden state db absent (lit "r") none refl nobody
      (no_person repo refl private_)

is_agent : agent_token agent_header ≡ some (lit "clotho_agt_1")
unfolding access_code
is_agent = refl

require_repo_write-agent_example :
    (a : AuthorizedAgent) × (state.send (lit "clotho_agt_1") (lit "r") (lit "merge_pull")
      ≡ reply 200 (ok a))
    × (agent_actor agent ≡ agent_actor a)
require_repo_write-agent_example =
    require_repo_write-agent state agent_header (lit "r") (lit "merge_pull") (lit "clotho_agt_1")
      repo (agent_actor agent) is_agent merges_as_agent

named : is_empty (lit "get_diff") ≡ false
unfolding text_code
named = refl

refuses : state.send (lit "clotho_agt_1") (lit "r") (lit "get_diff") ≡ reply 403 (ok agent)
unfolding text_code
refuses = refl
