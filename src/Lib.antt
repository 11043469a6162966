-- ===== src/Lib.antt =====
-- Clotho is a forge: git hosting whose edge (crates/clotho-api-gateway) keeps organizations,
-- repositories, permissions, merge policies, releases and Action runs in Postgres, and talks to
-- Forgejo, to an agent gateway, to a version control service and to Arachne
-- (crates/clotho-storage), a store of large files as segments of immutable xorb objects. A large
-- file stands in a repository as a pointer (crates/clotho-common).
--
-- Which file models what:
--   LfsPointer    crates/clotho-common/src/lfs_pointer.rs: LfsPointer::encode, parse,
--                 verify_payload and for_payload, over bytes.
--   Arachne       crates/clotho-storage/src/engine.rs: download, download_range and
--                 download_inner. The channel to the receiver is the record Channel: what has been
--                 sent, and how many messages the receiver takes before it hangs up.
--   ApiErrors     crates/clotho-api-gateway/src/error.rs and the tables of request_context.rs:
--                 statuses, codes, messages and responses.
--   Releases      crates/clotho-api-gateway/src/releases.rs: parse_byte_range, serve_release_file
--                 from the file's content on, and stream_arachne_release, which reads from Arachne.
--   MergePolicy   crates/clotho-api-gateway/src/merge_policy.rs with the table of policies, and
--                 merge_pull of pulls.rs.
--   Access        crates/clotho-api-gateway/src: the permissions of control.rs, and in Access/Routes
--                 the authorization of requests of auth.rs and agent_rest.rs.
--   ActionRuns    crates/clotho-api-gateway/src/actions.rs: claim_run, renew_run_lease and the two
--                 statements of finish_run as steps on one row of action_runs and its log.
--   AgentGateway  crates/clotho-agent-gateway/src: authenticate, authorize and scopes of identity.rs,
--                 the endpoint of admin.rs, and run_tool of mcp.rs with the audit log.
--   Webhooks      crates/clotho-api-gateway/src/webhooks.rs: the headers, the signature, the
--                 reservation of a delivery and, in Webhooks/Handler, the receiver `forgejo`.
--   Idempotency   crates/clotho-api-gateway/src/idempotency.rs, and create_run_idempotent of
--                 actions.rs on the tables of keys and of runs.
--   MergeQueue    crates/clotho-merge-queue/src/lib.rs: submit_change, with integrate_commit of
--                 crates/clotho-vcs/src/engine.rs.
--   Repos         crates/clotho-api-gateway/src/repos.rs: paginate_repos and its cursors.
--   SymbolDiff    crates/clotho-diff/src: diff_file of engine.rs with the walks over the syntax
--                 tree, and the reply of service.rs.
--   Compute       crates/clotho-compute/src: the registry of registry.rs, and the jobs of
--                 box_provider.rs (Compute/Box) and daytona.rs (Compute/Daytona), whose common
--                 steps are in Compute/Jobs. A run is a function of the requests sent before it.
--   Prelude       what Rust's standard library does (str::lines, str::parse::<u64>, from_utf8,
--                 strip_prefix, Result), and lemmas on lists and numbers.
--
-- Releases uses LfsPointer and Arachne: the messages that it relays are those of download_range.
-- MergePolicy and Access meet in merge_pull, which asks for the right to write. The edge of Access
-- asks the endpoint of AgentGateway about an agent's bearer. Webhooks asks Access for the one
-- repository of a name.
--
-- Text is the list of its bytes where the code looks into it, and a native string where it is only a
-- message. A u64 is a natural number with its bound written out: 2 ^ 64 in overflow checks,
-- saturating sums and parsed numbers. An i32 is an integer ℤ. The loop over the blocks of a
-- segment runs on fuel, the length of the segment's data, which is enough since each turn takes at
-- least one byte. The wait for a new sandbox runs on fuel, one for each poll, of which 151 are enough
-- for a box; the other loops are recursion on a list.
--
-- Parameters: SHA-256, HMAC, JSON, tree-sitter, jj, the object store, the shard index and the xorb
-- format, Forgejo, the queries of Postgres, the auth provider, the agent gateway, the services of
-- the sandboxes, the clock and Rust's format!. A statement of Postgres is atomic. In Access,
-- `resolve` may be any function, so what is shown holds for every provider.
--
-- Not modelled: uploads to Arachne, the in-memory Action runs of a gateway without a database, the
-- headers of a release's file that are constants or copies, logging, SQL that only lists, the
-- user interfaces, the command line, the bridge to ComputeSDK and the clients of other services. A call
-- of `download_file` that fails before its first message is not modelled, nor are hosts with words
-- of less than 64 bits.
pub mod Prelude
pub mod LfsPointer
pub mod Arachne
pub mod ApiErrors
pub mod Releases
pub mod MergePolicy
pub mod Access
pub mod ActionRuns
pub mod AgentGateway
pub mod Webhooks
pub mod SymbolDiff
pub mod Compute
pub mod Idempotency
pub mod Repos
pub mod MergeQueue
