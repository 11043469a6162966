-- ===== src/AgentGateway.antt =====
-- crates/clotho-agent-gateway/src: the identity and the scopes of agents (identity.rs), the endpoint
-- that answers whether a credential is authorized (admin.rs), and the call of a tool (mcp.rs).
pub mod Scopes
pub mod Audit
mod Tests
use clotho.Prelude.{
  ℕ, Bool, true, false, not, ◌||◌, ◌&&◌, Option, none, some, List, [], ◌∷◌, ◌++◌, ltb,
  if◌then◌else◌,
}
use clotho.Prelude.Bytes.{Bytes, lit, is_empty, beq, strip_prefix}
use clotho.Prelude.Results.{Result, ok, err, ◌>>=◌}
use clotho.Access.{AuthorizedAgent, AgentReply, reply}

pub record AuthedAgent : Type 0 where
  pub agent_id : Bytes
  pub token_id : Bytes
  pub name : Bytes
  pub allowed_repos : List Bytes
  pub allowed_tools : List Bytes

unfoldable pub scope_allows : (scope : List Bytes) → (value : Bytes) → Bool
scope_allows [] value = false
scope_allows (s ∷ scope) value = (beq s (lit "*") || beq s value) || scope_allows scope value

unfoldable pub may_use_tool : AuthedAgent → Bytes → Bool
unfolding scope_allows
may_use_tool agent tool = scope_allows agent.allowed_tools tool

unfoldable pub may_touch_repo : AuthedAgent → Bytes → Bool
unfolding scope_allows
may_touch_repo agent repo = scope_allows agent.allowed_repos repo

-- A token joined with its agent.
pub record TokenRow : Type 0 where
  pub holder : AuthedAgent
  pub revoked_at : Option ℕ
  pub expires_at : Option ℕ
  pub disabled_at : Option ℕ

abbrev pub is_null : Option ℕ → Bool
is_null none = true
is_null (some t) = false

abbrev pub is_later : Option ℕ → ℕ → Bool
is_later none now = true
is_later (some t) now = ltb now t

-- The conditions of the query: not revoked, not expired, and an agent that is not disabled.
unfoldable pub is_active : TokenRow → (now : ℕ) → Bool
is_active row now =
    is_null row.revoked_at && (is_later row.expires_at now && is_null row.disabled_at)

active_holder : Option TokenRow → (now : ℕ) → Option AuthedAgent
unfolding is_active
active_holder none now = none
active_holder (some row) now = if is_active row now then some row.holder else none

pub data AuthorizationDecision : Type 0 where
  authorized : AuthedAgent → AuthorizationDecision
  invalid_credential scope_denied : AuthorizationDecision

-- Whether a call of a tool on a repository is in both scopes; a platform tool has no repository.
unfoldable pub in_scope : AuthedAgent → (repo tool : Bytes) → Bool
unfolding may_use_tool may_touch_repo
in_scope agent repo tool =
    not (not (may_use_tool agent tool) || (not (is_empty repo) && not (may_touch_repo agent repo)))

-- `rows` finds the token of a hash in Postgres.
module _ (sha256 : Bytes → Bytes) (rows : Bytes → Result Bytes (Option TokenRow)) (now : ℕ) where
  prefixed : Option Bytes → (token : Bytes) → Result Bytes (Option AuthedAgent)
  unfolding active_holder
  prefixed none token = ok none
  prefixed (some rest) token = do row ← rows (sha256 token); ok (active_holder row now)

  unfoldable pub authenticate : (token : Bytes) → Result Bytes (Option AuthedAgent)
  unfolding prefixed
  authenticate token = prefixed (strip_prefix (lit "clotho_agt_") token) token

  decide : (repo tool : Bytes) → Option AuthedAgent → AuthorizationDecision
  unfolding in_scope
  decide repo tool none = invalid_credential
  decide repo tool (some agent) =
      if in_scope agent repo tool then authorized agent else scope_denied

  unfoldable pub authorize : (token repo tool : Bytes) → Result Bytes AuthorizationDecision
  unfolding authenticate decide
  authorize token repo tool = do found ← authenticate token; ok (decide repo tool found)

  answer : Result Bytes AuthorizationDecision → AgentReply
  answer (ok (authorized agent)) = reply 200 (
      ok (record {
        agent_id = agent.agent_id;
        token_id = agent.token_id;
        agent = agent.name;
        allowed_repos = agent.allowed_repos;
      }))
  answer (ok invalid_credential) = reply 401 (err (lit "no agent"))
  answer (ok scope_denied) = reply 403 (err (lit "no agent"))
  answer (err e) = reply 500 (err (lit "no agent"))

  -- The endpoint `/admin/v1/authorize`; a refusal has no agent in its body, and `is_blank` is Rust's
  -- `trim().is_empty()`.
  unfoldable pub authorize_endpoint :
      (is_blank : Bytes → Bool) → (token repo tool : Bytes) → AgentReply
  unfolding authorize answer
  authorize_endpoint is_blank token repo tool =
      if is_blank tool then reply 400 (err (lit "no agent")) else answer (authorize token repo tool)

-- The columns of `agent_audit_log` that `record_audit` writes.
pub record AuditEntry : Type 0 where
  pub agent_id : Bytes
  pub token_id : Bytes
  pub tool : Bytes
  pub repo : Bytes
  pub args_digest : Bytes
  pub status : Bytes
  pub error : Option Bytes

-- `CallToolResult`, with the text of its block.
pub data CallToolResult : Type 0 where
  success failure : Bytes → CallToolResult

-- The gateway: the audit log, and what the tools act on.
pub record Gateway (World : Type 0) : Type 0 where
  pub audit_log : List AuditEntry
  pub world : World

unfoldable pub entry : AuthedAgent → (tool repo digest status : Bytes) → Option Bytes → AuditEntry
entry agent tool repo digest status error = record {
  agent_id = agent.agent_id;
  token_id = agent.token_id;
  tool = tool;
  repo = repo;
  args_digest = digest;
  status = status;
  error = error;
}

-- `denied` and `payload` are the texts of a refusal and of a tool's error, and `accepts` says whether
-- Postgres takes the next entry.
module _ {World : Type 0} (sha256 : Bytes → Bytes) (denied : (name tool repo : Bytes) → Bytes)
    (payload : Bytes → Bytes) (accepts : List AuditEntry → Bool) where
  -- `audit`, and then the result; a failure to audit is a failure of the call.
  audited :
      AuditEntry → CallToolResult → Gateway World → Result Bytes CallToolResult × Gateway World
  audited e result g =
      if accepts g.audit_log
      then (ok result, record { audit_log = g.audit_log ++ e ∷ []; world = g.world })
      else (err (lit "audit log write failed"), g)

  after_work :
      AuthedAgent
      → (tool repo digest : Bytes) → List AuditEntry
      → Result Bytes Bytes × World
      → Result Bytes CallToolResult × Gateway World
  unfolding audited entry
  after_work agent tool repo digest log (ok text, w) =
      audited (entry agent tool repo digest (lit "ok") none) (success text)
        (record { audit_log = log; world = w })
  after_work agent tool repo digest log (err message, w) =
      audited (entry agent tool repo digest (lit "error") (some message))
        (failure (payload message)) (record { audit_log = log; world = w })

  -- `run_tool`, for an agent that the middleware has authenticated.
  unfoldable pub run_tool :
      AuthedAgent
      → (tool repo args : Bytes) → (work : World → Result Bytes Bytes × World) → Gateway World
      → Result Bytes CallToolResult × Gateway World
  unfolding after_work may_use_tool may_touch_repo audited entry
  run_tool agent tool repo args work g =
      let repo_ok = is_empty repo || may_touch_repo agent repo in
      let refused =
        audited
          (entry agent tool repo (sha256 args) (lit "denied") (some (denied agent.name tool repo)))
          (failure (denied agent.name tool repo)) g in
      if not (may_use_tool agent tool) || not repo_ok
      then refused
      else after_work agent tool repo (sha256 args) g.audit_log (work g.world)
