-- ===== src/AgentGateway/Tests.antt =====
-- One agent that may merge in the repository "r".
use clotho.Prelude.{ℕ, suc, ◌≡◌, refl, Bool, true, false, Option, none, some, List, [], ◌∷◌}
use clotho.Prelude.Bytes.{Bytes, lit, is_empty, text_code}
use clotho.Prelude.Http.{Header, value}
use clotho.Prelude.Results.{Result, ok, err}
use clotho.ApiErrors.{unauthorized}
use clotho.Access.{
  RepoWithOrg, AuthorizedRepoActor, agent_actor, AppState, extract_bearer, get_repo_with_org,
}
use clotho.Access.Routes.{agent_token, require_repo_write_for_tool}
use clotho.AgentGateway.{
  AuthedAgent, TokenRow, authorized, scope_denied, in_scope, authorize, authorize_endpoint,
  AuditEntry, Gateway, run_tool,
}
use clotho.AgentGateway.Scopes.{IsAuthorized, authorize-IsAuthorized, edge-IsAuthorized}

gateway_code : Unit {0}
unfolding authorize_endpoint authorize run_tool in_scope require_repo_write_for_tool agent_token
    extract_bearer get_repo_with_org text_code
gateway_code = tt

abbrev weaver : AuthedAgent
unfolding lit
weaver = record {
  agent_id = lit "a";
  token_id = lit "t";
  name = lit "weaver";
  allowed_repos = lit "r" ∷ [];
  allowed_tools = lit "merge_pull" ∷ [];
}

abbrev weaver_token : TokenRow
unfolding weaver
weaver_token = record {
  holder = weaver;
  revoked_at = none;
  expires_at = some 9;
  disabled_at = none;
}

abbrev unhashed : Bytes → Bytes
unhashed token = token

abbrev rows : Bytes → Result Bytes (Option TokenRow)
unfolding weaver_token
rows hash = ok (some weaver_token)

abbrev token : Bytes
unfolding lit
token = lit "clotho_agt_1"

is_authorized :
    authorize unhashed rows 5 token (lit "r") (lit "merge_pull") ≡ ok (authorized weaver)
unfolding gateway_code
is_authorized = refl

other_repo : authorize unhashed rows 5 token (lit "s") (lit "merge_pull") ≡ ok scope_denied
unfolding gateway_code
other_repo = refl

authorize-IsAuthorized_example :
    IsAuthorized unhashed rows 5 token (lit "r") (lit "merge_pull") weaver
authorize-IsAuthorized_example =
    authorize-IsAuthorized unhashed rows 5 token (lit "r") (lit "merge_pull") weaver is_authorized

abbrev repo : RepoWithOrg
unfolding lit
repo = record { id = lit "r"; org_id = lit "o"; visibility = lit "private" }

abbrev edge : AppState
unfolding repo
edge = record {
  auth_required = true;
  pool = some (record {
    repos_named = λ name. ok (repo ∷ []);
    org_role = λ org_id user_id. ok none;
    repo_permission = λ repo_id user_id. ok none;
  });
  resolve = λ headers. err (unauthorized "no human");
  agents_configured = true;
  send = λ t r n. authorize_endpoint unhashed rows 5 is_empty t r n;
  format = λ text args. text;
}

abbrev header : Header
unfolding lit
header = value (lit "Bearer clotho_agt_1")

abbrev weaver_actor : AuthorizedRepoActor
unfolding lit
weaver_actor = agent_actor (record {
  agent_id = lit "a";
  token_id = lit "t";
  agent = lit "weaver";
  allowed_repos = lit "r" ∷ [];
})

has_token : agent_token header ≡ some token
unfolding gateway_code
has_token = refl

lets_in :
    require_repo_write_for_tool edge header (lit "r") (lit "merge_pull") ≡ ok (repo, weaver_actor)
unfolding gateway_code
lets_in = refl

asks_gateway : (t r n : Bytes) → edge.send t r n ≡ authorize_endpoint unhashed rows 5 is_empty t r n
unfolding edge
asks_gateway t r n = refl

edge-IsAuthorized_example :
    (agent : AuthedAgent) × IsAuthorized unhashed rows 5 token (lit "r") (lit "merge_pull") agent
edge-IsAuthorized_example =
    edge-IsAuthorized unhashed rows 5 edge is_empty header (lit "r") (lit "merge_pull") token repo
      weaver_actor asks_gateway has_token lets_in

-- A world is the number of merges.
abbrev merge : ℕ → Result Bytes Bytes × ℕ
unfolding lit
merge n = (ok (lit "merged"), suc n)

abbrev no_merge : (name tool repo : Bytes) → Bytes
no_merge name tool r = lit "denied"

abbrev takes_all : List AuditEntry → Bool
takes_all log = true

abbrev empty : Gateway ℕ
empty = record { audit_log = []; world = 0 }

out_of_reach : in_scope weaver (lit "s") (lit "merge_pull") ≡ false
unfolding gateway_code
out_of_reach = refl
