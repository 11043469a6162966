-- ===== src/MergeQueue.antt =====
-- crates/clotho-merge-queue/src/lib.rs and integrate_commit of crates/clotho-vcs/src/engine.rs: how a
-- change lands on the branch main of a repository. The jj library is a parameter: `G` is its store of
-- commits, and a commit is its id. The lock of the queue lets one submission of a repository run at
-- a time, so that submissions are here one after the other.
pub mod History
mod Tests
use clotho.Prelude.{Bool, true, false, not, ◌||◌, Option, none, some, List, [], ◌∷◌, if◌then◌else◌}
use clotho.Prelude.Bytes.{Bytes, is_empty}
use clotho.Prelude.Results.{Result, ok, err, ◌>>=◌, ◌>>◌, guard}

pub data EngineError : Type 0 where
  invalid_id : (commit_id : Bytes) → EngineError
  invalid_argument : EngineError
  other : (message : Bytes) → EngineError

-- The store of a repository, and the target of main.
pub record Repository (G : Type 0) : Type 0 where
  pub graph : G
  pub main : Option Bytes

pub record IntegrationOutcome : Type 0 where
  pub commit_id : Bytes
  pub fast_forwarded : Bool
  pub conflicted : Bool
  pub conflicted_paths : List Bytes

-- What the code asks of jj; `commit_tx` sets main with the transaction, and `mirror_main_ref` writes
-- it to the git repository afterwards.
pub record Jj (G : Type 0) : Type 0 where
  pub get_commit : G → (commit_id : Bytes) → Result EngineError Bytes
  pub is_ancestor : G → (ancestor descendant : Bytes) → Result EngineError Bool
  pub rebase : G → (commit target : Bytes) → Result EngineError (Bytes × G)
  pub conflicts : G → (commit : Bytes) → List Bytes
  pub commit_tx : G → (main : Bytes) → Result EngineError G
  pub mirror_main_ref : (main : Bytes) → Result EngineError (Unit {0})

-- A commit that is to be the target of main, and whether it is the one that was submitted.
pub record Landed (G : Type 0) : Type 0 where
  pub commit : Bytes
  pub landed_graph : G
  pub is_fast_forward : Bool

pub record SubmitChangeRequest : Type 0 where
  pub repo : Bytes
  pub commit_id : Bytes

module _ {G : Type 0} (jj : Jj G) where
  unfoldable pub rebased : Result EngineError (Bytes × G) → Result EngineError (Landed G)
  rebased (ok (commit, graph)) =
      ok (record { commit = commit; landed_graph = graph; is_fast_forward = false })
  rebased (err e) = err e

  unfoldable pub forward_or_rebase :
      G → (commit target : Bytes) → Result EngineError Bool → Result EngineError (Landed G)
  unfolding rebased
  forward_or_rebase graph commit target (err e) = err e
  forward_or_rebase graph commit target (ok true) =
      ok (record { commit = commit; landed_graph = graph; is_fast_forward = true })
  forward_or_rebase graph commit target (ok false) = rebased (jj.rebase graph commit target)

  -- Fast-forward without a main, or if the commit descends from it.
  unfoldable pub land : Repository G → (commit : Bytes) → Result EngineError (Landed G)
  unfolding forward_or_rebase
  land repository commit = elim repository.main [
    | none ↦
        ok (record { commit = commit; landed_graph = repository.graph; is_fast_forward = true })
    | some target ↦
        forward_or_rebase repository.graph commit target
          (jj.is_ancestor repository.graph target commit)
  ]

  is_conflicted : List Bytes → Bool
  is_conflicted [] = false
  is_conflicted (path ∷ paths) = true

  unfoldable pub outcome_of : Landed G → IntegrationOutcome
  unfolding is_conflicted
  outcome_of landed = record {
    commit_id = landed.commit;
    fast_forwarded = landed.is_fast_forward;
    conflicted = is_conflicted (jj.conflicts landed.landed_graph landed.commit);
    conflicted_paths = jj.conflicts landed.landed_graph landed.commit;
  }

  -- A mirror that fails is an error after main has moved.
  mirrored :
      Result EngineError (Unit {0}) → IntegrationOutcome → Result EngineError IntegrationOutcome
  mirrored (ok u) outcome = ok outcome
  mirrored (err e) outcome = err e

  unfoldable pub publish :
      Repository G
      → Landed G
      → Result EngineError G
      → Result EngineError IntegrationOutcome × Repository G
  unfolding mirrored outcome_of
  publish repository landed (err e) = (err e, repository)
  publish repository landed (ok graph) = (
    mirrored (jj.mirror_main_ref landed.commit) (outcome_of landed),
    record { graph = graph; main = some landed.commit },
  )

  unfoldable pub land_result :
      Repository G
      → Result EngineError (Landed G)
      → Result EngineError IntegrationOutcome × Repository G
  unfolding publish
  land_result repository (err e) = (err e, repository)
  land_result repository (ok landed) =
      publish repository landed (jj.commit_tx landed.landed_graph landed.commit)

  unfoldable pub integrate_commit :
      Repository G → (commit_id : Bytes) → Result EngineError IntegrationOutcome × Repository G
  unfolding land land_result
  integrate_commit repository commit_id =
      land_result repository (jj.get_commit repository.graph commit_id >>= land repository)

  unfoldable pub submit_change :
      Repository G → SubmitChangeRequest → Result EngineError IntegrationOutcome × Repository G
  unfolding integrate_commit
  submit_change repository request =
      if is_empty request.repo || is_empty request.commit_id
      then (err invalid_argument, repository)
      else integrate_commit repository request.commit_id
