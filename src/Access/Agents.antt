-- ===== src/Access/Agents.antt =====
-- What an agent's bearer is good for on the routes that stand for a tool.
use clotho.Prelude.{◌≡◌, refl, sym, ap, true, false, not, Option, some, arith}
use clotho.Prelude.Bytes.{Bytes, is_empty}
use clotho.Prelude.Http.{Header}
use clotho.Prelude.Results.{Result, ok, err, guard, >>=-eq-ok, ok-injective}
use clotho.Access.{
  RepoWithOrg, AuthorizedAgent, AuthorizedRepoActor, agent_actor, AgentReply, no_reply, reply,
  AppState,
}
use clotho.Access.Routes.{
  hidden_repo, agent_token, read_reply, ask_gateway, authorize_if_agent, known_repo, write_as,
  read_for_tool, require_repo_write_for_tool, require_repo_read_for_tool,
}

read_reply-eq-ok :
    (state : AppState) (answer : AgentReply) {found : Option AuthorizedAgent}
    → read_reply state answer ≡ ok found
    → (agent : AuthorizedAgent) × (answer ≡ reply 200 (ok agent)) × (found ≡ some agent)
unfolding read_reply
read_reply-eq-ok state (no_reply e) h = cc
read_reply-eq-ok state (reply status (err e)) h = ground arith
read_reply-eq-ok state (reply status (ok agent)) h =
    let is_200 : status ≡ 200 = ground arith in
    (agent, ap (λ n. reply n (ok agent)) is_200, ok-injective (sym (rw is_200 at h)))

-- An agent's bearer that is let in at all is let in as the agent that the gateway named for this
-- bearer, repository and tool.
authorize-agent :
    (state : AppState) (headers : Header) (repo tool token : Bytes) {found : Option AuthorizedAgent}
    → agent_token headers ≡ some token
    → authorize_if_agent state headers repo tool ≡ ok found
    → (agent : AuthorizedAgent) × (state.send token repo tool ≡ reply 200 (ok agent))
      × (found ≡ some agent)
unfolding authorize_if_agent ask_gateway
authorize-agent state headers repo tool token bearer h =
    let (u, named, h1) = >>=-eq-ok (guard (not (is_empty tool)) _) _ (rw bearer at h) in
    let (v, configured, h2) = >>=-eq-ok (guard state.agents_configured _) _ h1 in
    read_reply-eq-ok state (state.send token repo tool) h2

-- With an agent's bearer a mutation is let in only as the agent that the gateway has authorized
-- for this bearer, the repository and the tool of the route.
pub require_repo_write-agent :
    (state : AppState) (headers : Header) (repo_name tool token : Bytes) (repo : RepoWithOrg)
    (actor : AuthorizedRepoActor)
    → agent_token headers ≡ some token
    → require_repo_write_for_tool state headers repo_name tool ≡ ok (repo, actor)
    → (agent : AuthorizedAgent) × (state.send token repo_name tool ≡ reply 200 (ok agent))
      × (actor ≡ agent_actor agent)
unfolding require_repo_write_for_tool write_as
require_repo_write-agent state headers repo_name tool token repo actor bearer h =
    let (found, authorized, h1) = >>=-eq-ok (authorize_if_agent state headers repo_name tool) _ h in
    let (agent, answer, is_agent) =
      authorize-agent state headers repo_name tool token bearer authorized in
    let (r, known, h2) = >>=-eq-ok (known_repo state _ repo_name) _ (rw is_agent at h1) in
    (agent, answer, cc (ok-injective h2))

-- With an agent's bearer that the gateway refuses for the tool, a read gets the answer of a
-- repository that does not exist.
require_repo_read-refused_agent :
    (state : AppState) (headers : Header) (repo_name tool token : Bytes)
    (body : Result Bytes AuthorizedAgent)
    → agent_token headers ≡ some token
    → is_empty tool ≡ false
    → state.agents_configured ≡ true
    → state.send token repo_name tool ≡ reply 403 body
    → require_repo_read_for_tool state headers repo_name tool ≡ err hidden_repo
unfolding require_repo_read_for_tool read_for_tool authorize_if_agent ask_gateway read_reply
require_repo_read-refused_agent state headers repo_name tool token body bearer named configured
      answer =
    rw (bearer, named, configured, answer) refl
