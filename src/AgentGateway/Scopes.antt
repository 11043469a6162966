-- ===== src/AgentGateway/Scopes.antt =====
-- Whom the gateway authorizes, and what that means for the edge.
use clotho.Prelude.{
  ℕ, ◌≡◌, ◌≢◌, ◌⊎◌, inl, inr, refl, sym, ap, subst, ◌∙◌, Bool, true, Option, none, some, List, [],
  ◌∷◌, arith, Bool-cases,
}
use clotho.Prelude.Bytes.{Bytes, lit, is_empty, beq, beq_iff, strip_prefix}
use clotho.Prelude.Http.{Header}
use clotho.Prelude.Results.{Result, ok, err, >>=-eq-ok, ok-injective}
use clotho.Access.{
  RepoWithOrg, AuthorizedAgent, AuthorizedRepoActor, AgentReply, reply, no_reply, AppState,
}
use clotho.Access.Routes.{agent_token, require_repo_write_for_tool}
use clotho.Access.Agents.{require_repo_write-agent}
use clotho.AgentGateway.{
  AuthedAgent, scope_allows, may_use_tool, may_touch_repo, TokenRow, is_active, active_holder,
  AuthorizationDecision, authorized, invalid_credential, scope_denied, in_scope, authenticate,
  prefixed, decide, authorize, answer, authorize_endpoint,
}

-- A value that the scope lists, by itself or by "*".
pub data Allows (value : Bytes) : List Bytes → Type 0 where
  wildcard : (scope : List Bytes) → Allows value (lit "*" ∷ scope)
  listed : (scope : List Bytes) → Allows value (value ∷ scope)
  further : (s : Bytes) (scope : List Bytes) → Allows value scope → Allows value (s ∷ scope)

scope_allows-Allows :
    (scope : List Bytes) (value : Bytes) → scope_allows scope value ≡ true → Allows value scope
unfolding scope_allows
scope_allows-Allows [] value h = cc
scope_allows-Allows (s ∷ scope) value h = elim (Bool-cases (beq s (lit "*"))) [
  | inl star ↦
      subst (λ x. Allows value (x ∷ scope)) (sym ((beq_iff s (lit "*")).0 star)) (wildcard scope)
  | inr other ↦ elim (Bool-cases (beq s value)) [
    | inl same ↦
        subst (λ x. Allows value (x ∷ scope)) (sym ((beq_iff s value).0 same)) (listed scope)
    | inr differs ↦ further s scope (scope_allows-Allows scope value (ground (arith)))
  ]
]

-- The token is an active one of the agent, and both scopes of the agent allow the call.
pub record IsAuthorized (sha256 : Bytes → Bytes) (rows : Bytes → Result Bytes (Option TokenRow))
    (now : ℕ) (token repo tool : Bytes) (agent : AuthedAgent) : Type 0 where
  pub row : TokenRow
  pub is_row : rows (sha256 token) ≡ ok (some row)
  pub active : is_active row now ≡ true
  pub is_holder : row.holder ≡ agent
  pub tool_allowed : Allows tool agent.allowed_tools
  pub repo_allowed : (is_empty repo ≡ true) ⊎ Allows repo agent.allowed_repos

in_scope-Allows :
    (agent : AuthedAgent) (repo tool : Bytes)
    → in_scope agent repo tool ≡ true
    → Allows tool agent.allowed_tools × ((is_empty repo ≡ true) ⊎ Allows repo agent.allowed_repos)
unfolding in_scope may_use_tool may_touch_repo
in_scope-Allows agent repo tool h = (
  scope_allows-Allows agent.allowed_tools tool (ground arith),
  elim (Bool-cases (is_empty repo)) [
    | inl platform ↦ inl platform
    | inr named ↦ inr (scope_allows-Allows agent.allowed_repos repo (ground arith))
  ],
)

module _ (sha256 : Bytes → Bytes) (rows : Bytes → Result Bytes (Option TokenRow)) (now : ℕ) where
  active_holder-eq-some :
      (row : Option TokenRow) {agent : AuthedAgent}
      → active_holder row now ≡ some agent
      → (r : TokenRow) × (row ≡ some r) × (is_active r now ≡ true) × (r.holder ≡ agent)
  unfolding active_holder
  active_holder-eq-some none h = cc
  active_holder-eq-some (some r) h = elim (Bool-cases (is_active r now)) [
    | inl active ↦ (r, refl, active, cc (rw active at h))
    | inr fails ↦ cc (rw fails at h)
  ]

  authenticate-eq-some :
      (token : Bytes) {agent : AuthedAgent}
      → authenticate sha256 rows now token ≡ ok (some agent)
      → (r : TokenRow) × (rows (sha256 token) ≡ ok (some r))
        × (is_active r now ≡ true)
        × (r.holder ≡ agent)
  unfolding authenticate prefixed
  authenticate-eq-some token {agent = agent} h = go (strip_prefix (lit "clotho_agt_") token) h
    where
      go :
          (stripped : Option Bytes)
          → prefixed sha256 rows now stripped token ≡ ok (some agent)
          → (r : TokenRow) × (rows (sha256 token) ≡ ok (some r))
            × (is_active r now ≡ true)
            × (r.holder ≡ agent)
      go none e = cc
      go (some rest) e =
          let (row, found, is_agent) = >>=-eq-ok (rows (sha256 token)) _ e in
          let (r, same, active, holder) = active_holder-eq-some row (ok-injective is_agent) in
          (r, found ∙ ap ok same, active, holder)

  decide-eq-authorized :
      (repo tool : Bytes) (found : Option AuthedAgent) {agent : AuthedAgent}
      → decide sha256 rows now repo tool found ≡ authorized agent
      → (found ≡ some agent) × (in_scope agent repo tool ≡ true)
  unfolding decide
  decide-eq-authorized repo tool none h = cc
  decide-eq-authorized repo tool (some a) {agent = agent} h =
      elim (Bool-cases (in_scope a repo tool)) [
        | inl allowed ↦
            let same : a ≡ agent = cc (rw allowed at h) in
            (ap some same, subst (λ x. in_scope x repo tool ≡ true) same allowed)
        | inr refused ↦ cc (rw refused at h)
      ]

  -- `authorize` names an agent only for an active token of that agent whose two scopes allow the
  -- call.
  pub authorize-IsAuthorized :
      (token repo tool : Bytes) (agent : AuthedAgent)
      → authorize sha256 rows now token repo tool ≡ ok (authorized agent)
      → IsAuthorized sha256 rows now token repo tool agent
  unfolding authorize
  authorize-IsAuthorized token repo tool agent h =
      let (found, got, decided) = >>=-eq-ok (authenticate sha256 rows now token) _ h in
      let (is_agent, scope) = decide-eq-authorized repo tool found (ok-injective decided) in
      let (r, is_row, active, holder) = authenticate-eq-some token (got ∙ ap ok is_agent) in
      let (tool_ok, repo_ok) = in_scope-Allows agent repo tool scope in
      record {
        row = r;
        is_row = is_row;
        active = active;
        is_holder = holder;
        tool_allowed = tool_ok;
        repo_allowed = repo_ok;
      }

  endpoint-200 :
      (is_blank : Bytes → Bool) (token repo tool : Bytes) (body : Result Bytes AuthorizedAgent)
      → authorize_endpoint sha256 rows now is_blank token repo tool ≡ reply 200 body
      → (agent : AuthedAgent) × (authorize sha256 rows now token repo tool ≡ ok (authorized agent))
  unfolding authorize_endpoint
  endpoint-200 is_blank token repo tool body h = elim (Bool-cases (is_blank tool)) [
    | inl blank ↦ absurd (other_status 400 (λ e. omega (arith, e)) (rw blank at h))
    | inr named ↦ go (authorize sha256 rows now token repo tool) (rw named at h)
  ]
    where
      status_of : AgentReply → ℕ
      status_of (reply n b) = n
      status_of (no_reply e) = 0

      other_status :
          (n : ℕ) {b : Result Bytes AuthorizedAgent} → n ≢ 200 → reply n b ≢ reply 200 body
      other_status n ne e = ne (ap status_of e)

      go :
          (d : Result Bytes AuthorizationDecision)
          → answer sha256 rows now d ≡ reply 200 body
          → (agent : AuthedAgent) × (d ≡ ok (authorized agent))
      go (ok (authorized agent)) e = (agent, refl)
      go (ok invalid_credential) e = absurd (other_status 401 (λ e. omega (arith, e)) e)
      go (ok scope_denied) e = absurd (other_status 403 (λ e. omega (arith, e)) e)
      go (err x) e = absurd (other_status 500 (λ e. omega (arith, e)) e)

  -- An edge that asks this gateway lets an agent's bearer mutate a repository only if the bearer
  -- is an active token of an agent whose scopes allow the route's tool on the repository.
  pub edge-IsAuthorized :
      (state : AppState) (is_blank : Bytes → Bool) (headers : Header) (repo_name tool token : Bytes)
      (repo : RepoWithOrg) (actor : AuthorizedRepoActor)
      → ((t r n : Bytes) → state.send t r n ≡ authorize_endpoint sha256 rows now is_blank t r n)
      → agent_token headers ≡ some token
      → require_repo_write_for_tool state headers repo_name tool ≡ ok (repo, actor)
      → (agent : AuthedAgent) × IsAuthorized sha256 rows now token repo_name tool agent
  edge-IsAuthorized state is_blank headers repo_name tool token repo actor asks bearer h =
      let (a, answered, is_actor) =
        require_repo_write-agent state headers repo_name tool token repo actor bearer h in
      let (agent, decided) =
        endpoint-200 is_blank token repo_name tool (ok a)
          (sym (asks token repo_name tool) ∙ answered) in
      (agent, authorize-IsAuthorized token repo_name tool agent decided)
