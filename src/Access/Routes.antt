-- ===== src/Access/Routes.antt =====
-- The authorization of name-routed repository requests, by people and by agents: auth.rs and
-- agent_rest.rs.
use clotho.Prelude.{Option, none, some, [], ◌∷◌, not, if◌then◌else◌, ◌==◌}
use clotho.Prelude.Bytes.{Bytes, lit, is_empty, beq, strip_prefix}
use clotho.Prelude.Decimal.{show_u64}
use clotho.Prelude.Http.{Header}
use clotho.Prelude.Results.{Result, ok, err, ◌>>=◌, ◌>>◌, guard, ok_or}
use clotho.ApiErrors.{ApiError, not_found, upstream, internal, unauthorized, forbidden}
use clotho.Access.{
  RepoWithOrg, AuthContext, AuthorizedAgent, AuthorizedRepoActor, human_actor, agent_actor,
  Database, AgentReply, no_reply, reply, AppState, extract_bearer, has_authorization,
  get_repo_with_org, has_repo_permission, require_repo_permission,
}

unfoldable pub hidden_repo : ApiError
hidden_repo = not_found "repository not found"

abbrev pub map_some : {A : Type 0} → Result ApiError A → Result ApiError (Option A)
map_some (ok a) = ok (some a)
map_some (err e) = err e

abbrev pub agents_only : (stripped : Option Bytes) → Bytes → Option Bytes
agents_only none token = none
agents_only (some rest) token = some token

abbrev pub bearer_token : Option Bytes → Option Bytes
bearer_token none = none
bearer_token (some token) = agents_only (strip_prefix (lit "clotho_agt_") token) token

-- An agent's bearer, as `authorize_if_agent` recognizes it.
unfoldable pub agent_token : Header → Option Bytes
agent_token headers = bearer_token (extract_bearer headers)

module _ (state : AppState) where
  with_bearer : Header → Option Bytes → Result ApiError (Option AuthContext)
  with_bearer headers none =
      err (unauthorized "invalid Authorization header; expected Bearer <token>")
  with_bearer headers (some token) = map_some (state.resolve headers)

  unfoldable pub resolve_optional_human_auth : Header → Result ApiError (Option AuthContext)
  unfolding with_bearer
  resolve_optional_human_auth headers =
      if has_authorization headers
      then with_bearer headers (extract_bearer headers)
      else if state.auth_required
      then ok none
      else map_some (state.resolve headers)

  -- The end of `require_repo_read`, for a repository that is not public.
  unfoldable pub private_read :
      Database → RepoWithOrg → Option AuthContext → Result ApiError RepoWithOrg
  unfolding hidden_repo
  private_read db repo none = err hidden_repo
  private_read db repo (some principal) = do
    allowed ← has_repo_permission db repo principal.user_id (lit "read")
    guard allowed hidden_repo
    ok repo

  unfoldable pub found_read :
      Database → Option AuthContext → RepoWithOrg → Result ApiError RepoWithOrg
  unfolding private_read
  found_read db principal repo =
      if beq repo.visibility (lit "public") then ok repo else private_read db repo principal

  unfoldable pub require_repo_read : Header → (repo_name : Bytes) → Result ApiError RepoWithOrg
  unfolding resolve_optional_human_auth found_read hidden_repo
  require_repo_read headers repo_name = do
    principal ← resolve_optional_human_auth headers
    db ← ok_or state.pool (internal "repository reads require the control plane")
    found ← get_repo_with_org db repo_name
    repo ← ok_or found hidden_repo
    found_read db principal repo

  unfoldable pub body_agent :
      Result Bytes AuthorizedAgent → Result ApiError (Option AuthorizedAgent)
  body_agent (err e) =
      err (upstream (state.format "decode agent authorization response: {}" (e ∷ [])))
  body_agent (ok agent) = ok (some agent)

  unfoldable pub read_reply : AgentReply → Result ApiError (Option AuthorizedAgent)
  unfolding body_agent
  read_reply (no_reply e) = err (upstream (state.format "agent authorization request: {}" (e ∷ [])))
  read_reply (reply status body) =
      if status == 200
      then body_agent body
      else if status == 401
      then err (unauthorized "agent credential is invalid or inactive")
      else if status == 403
      then err (forbidden "agent credential does not authorize this operation")
      else err
          (upstream (state.format "agent authorization returned HTTP {}" (show_u64 status ∷ [])))

  unfoldable pub ask_gateway : (token repo tool : Bytes) → Result ApiError (Option AuthorizedAgent)
  unfolding read_reply
  ask_gateway token repo tool = do
    guard (not (is_empty tool)) (internal "agent authorization requires a handler-owned tool")
    guard state.agents_configured (internal "agent authorization service is not configured")
    read_reply (state.send token repo tool)

  bearer_agent : Option Bytes → (repo tool : Bytes) → Result ApiError (Option AuthorizedAgent)
  unfolding ask_gateway
  bearer_agent none repo tool = ok none
  bearer_agent (some token) repo tool = ask_gateway token repo tool

  unfoldable pub authorize_if_agent :
      Header → (repo tool : Bytes) → Result ApiError (Option AuthorizedAgent)
  unfolding bearer_agent agent_token
  authorize_if_agent headers repo tool = bearer_agent (agent_token headers) repo tool

  -- The repository for a caller that is authorized; `needs` is the message without a pool.
  unfoldable pub known_repo : (needs : ApiError) → (repo_name : Bytes) → Result ApiError RepoWithOrg
  unfolding hidden_repo
  known_repo needs repo_name = do
    db ← ok_or state.pool needs
    found ← get_repo_with_org db repo_name
    ok_or found hidden_repo

  unfoldable pub read_for_tool :
      Header
      → (repo_name : Bytes) → Result ApiError (Option AuthorizedAgent)
      → Result ApiError RepoWithOrg
  unfolding known_repo hidden_repo
  read_for_tool headers repo_name (ok (some agent)) =
      known_repo (internal "repository reads require the control plane") repo_name
  read_for_tool headers repo_name (ok none) = require_repo_read headers repo_name
  read_for_tool headers repo_name (err (forbidden m)) = err hidden_repo
  read_for_tool headers repo_name (err e) = err e

  unfoldable pub require_repo_read_for_tool :
      Header → (repo_name tool : Bytes) → Result ApiError RepoWithOrg
  unfolding read_for_tool
  require_repo_read_for_tool headers repo_name tool =
      read_for_tool headers repo_name (authorize_if_agent headers repo_name tool)

  unfoldable pub write_as :
      Header
      → (repo_name : Bytes) → Option AuthorizedAgent
      → Result ApiError (RepoWithOrg × AuthorizedRepoActor)
  unfolding known_repo
  write_as headers repo_name (some agent) = do
    repo ← known_repo (internal "repository mutations require the control plane") repo_name
    ok (repo, agent_actor agent)
  write_as headers repo_name none = do
    resolved ← resolve_optional_human_auth headers
    human ← ok_or resolved (unauthorized "authentication required")
    db ← ok_or state.pool (internal "repository mutations require the control plane")
    repo ← require_repo_permission state db repo_name human.user_id (lit "write")
    ok (repo, human_actor human)

  unfoldable pub require_repo_write_for_tool :
      Header → (repo_name tool : Bytes) → Result ApiError (RepoWithOrg × AuthorizedRepoActor)
  unfolding authorize_if_agent write_as
  require_repo_write_for_tool headers repo_name tool = do
    agent ← authorize_if_agent headers repo_name tool
    write_as headers repo_name agent
