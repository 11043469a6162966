-- ===== src/AgentGateway/Audit.antt =====
-- Every call of a tool is audited, and a call out of scope does nothing else.
use clotho.Prelude.{◌≡◌, inl, inr, Bool, false, not, ◌||◌, none, some, List, arith, Bool-cases}
use clotho.Prelude.Bytes.{Bytes, lit, is_empty}
use clotho.Prelude.Results.{Result}
use clotho.AgentGateway.{
  AuthedAgent, may_use_tool, may_touch_repo, in_scope, AuditEntry, CallToolResult, success, failure,
  Gateway, entry, audited, run_tool,
}

scope_tests :
    (agent : AuthedAgent) (tool repo : Bytes)
    → (not (may_use_tool agent tool) || not (is_empty repo || may_touch_repo agent repo))
      ≡ not (in_scope agent repo tool)
unfolding in_scope
scope_tests agent tool repo = ground arith

-- The entry is one of this call, and its status is that of the result.
pub data IsEntryOf (agent : AuthedAgent) (tool repo digest : Bytes)
    : AuditEntry → CallToolResult → Type 0 where
  of_success :
      (text : Bytes)
      → IsEntryOf agent tool repo digest
          (entry agent tool repo digest (lit "ok") none)
          (success text)
  of_error :
      (message text : Bytes)
      → IsEntryOf agent tool repo digest
          (entry agent tool repo digest (lit "error") (some message))
          (failure text)
  of_denied :
      (message : Bytes)
      → IsEntryOf agent tool repo digest
          (entry agent tool repo digest (lit "denied") (some message))
          (failure message)

module _ {World : Type 0} (sha256 : Bytes → Bytes) (denied : (name tool repo : Bytes) → Bytes)
    (payload : Bytes → Bytes) (accepts : List AuditEntry → Bool) where
  audited-world :
      (e : AuditEntry) (result : CallToolResult) (g : Gateway World)
      → (audited sha256 denied payload accepts e result g).1.world ≡ g.world
  unfolding audited
  audited-world e result g = elim (Bool-cases (accepts g.audit_log)) [
    | inl taken ↦ rw taken
    | inr refused ↦ rw refused
  ]

  module _ (agent : AuthedAgent) (tool repo args : Bytes)
      (work : World → Result Bytes Bytes × World) (g : Gateway World) where
    out_of_scope :
        in_scope agent repo tool ≡ false
        → run_tool sha256 denied payload accepts agent tool repo args work g
          ≡ audited sha256 denied payload accepts
              (entry agent tool repo
                (sha256 args)
                (lit "denied")
                (some (denied agent.name tool repo)))
              (failure (denied agent.name tool repo))
              g
    unfolding run_tool
    out_of_scope h = rw (scope_tests agent tool repo, h)

    -- A call out of scope does not run the tool: what the tools act on stays as it is.
    run_tool-denied :
        in_scope agent repo tool ≡ false
        → (run_tool sha256 denied payload accepts agent tool repo args work g).1.world ≡ g.world
    run_tool-denied h = rw (out_of_scope h) (audited-world _ _ g)
