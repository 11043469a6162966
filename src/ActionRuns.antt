-- ===== src/ActionRuns.antt =====
-- crates/clotho-api-gateway/src/actions.rs: the lease of one Action run in Postgres. Its rows change
-- by the statements of the code, each of them atomic, in any interleaving of workers: the log of a
-- result is inserted by a statement of its own, later than the update of the run. A time is a number
-- of milliseconds, and Postgres has a clock of its own.
pub mod Leases
pub mod Results
mod Tests
use clotho.Prelude.{
  ℕ, ◌+◌, ◌-◌, ◌≡◌, ◌≢◌, Bool, true, false, ◌||◌, ◌&&◌, Option, none, some, List, [], ◌∷◌, ◌++◌,
  ltb, if◌then◌else◌,
}
use clotho.Prelude.Bytes.{Bytes, lit, is_empty, beq}
use clotho.Prelude.Int.{ℤ}

pub record ActionJob : Type 0 where
  pub job_status : Bytes
  pub exit_code : Option ℤ

-- The fields of `ActionRun` that change.
pub record ActionRun : Type 0 where
  pub status : Bytes
  pub conclusion : Bytes
  pub provider : Bytes
  pub sandbox_id : Bytes
  pub started_at_millis : ℕ
  pub finished_at_millis : ℕ
  pub duration_ms : ℕ
  pub attempt : ℕ
  pub jobs : List ActionJob

pub record FinishedRun : Type 0 where
  pub status : Bytes
  pub conclusion : Bytes
  pub exit_code : Option ℤ
  pub logs : Bytes
  pub provider : Bytes
  pub sandbox_id : Bytes

-- The row of `action_runs`, and the text of the row of `action_logs`, where there is one.
pub record Stored : Type 0 where
  pub run : ActionRun
  pub locked_by : Option Bytes
  pub lease_expires_at : Option ℕ
  pub log_text : Option Bytes

-- `locked_by = $1`
unfoldable pub holds : Option Bytes → Bytes → Bool
holds none worker = false
holds (some w) worker = beq w worker

-- `lease_expires_at is null or lease_expires_at < now()`
unfoldable pub has_expired : Option ℕ → (db_now : ℕ) → Bool
has_expired none db_now = true
has_expired (some t) db_now = ltb t db_now

unfoldable pub is_claimable : Stored → (db_now : ℕ) → Bool
unfolding has_expired
is_claimable s db_now =
    beq s.run.status (lit "queued")
    || (beq s.run.status (lit "running") && has_expired s.lease_expires_at db_now)

claimed_by : (worker : Bytes) → (db_now now : ℕ) → Stored → Stored
claimed_by worker db_now now s = record {
  run = record {
    status = lit "running";
    conclusion = [];
    provider = s.run.provider;
    sandbox_id = s.run.sandbox_id;
    started_at_millis = now;
    finished_at_millis = 0;
    duration_ms = 0;
    attempt = s.run.attempt + 1;
    jobs = s.run.jobs;
  };
  locked_by = some worker;
  lease_expires_at = some (db_now + 30000);
  log_text = s.log_text;
}

-- `claim_run` with the worker's new id.
unfoldable pub claim_run : (worker : Bytes) → (db_now now : ℕ) → Stored → Option Bytes × Stored
unfolding is_claimable claimed_by
claim_run worker db_now now s =
    if is_claimable s db_now then (some worker, claimed_by worker db_now now s) else (none, s)

unfoldable pub renew_run_lease : (worker : Bytes) → (db_now : ℕ) → Stored → Bool × Stored
unfolding holds
renew_run_lease worker db_now s =
    if holds s.locked_by worker && beq s.run.status (lit "running")
    then (
      true,
      record {
        run = s.run;
        locked_by = s.locked_by;
        lease_expires_at = some (db_now + 30000);
        log_text = s.log_text;
      },
    )
    else (false, s)

unfoldable pub finished_jobs : FinishedRun → List ActionJob → List ActionJob
finished_jobs update [] = []
finished_jobs update (job ∷ jobs) =
    record { job_status = update.status; exit_code = update.exit_code } ∷ jobs

unfoldable pub apply_finished : ActionRun → FinishedRun → (finished : ℕ) → ActionRun
unfolding finished_jobs
apply_finished run update finished = record {
  status = update.status;
  conclusion = update.conclusion;
  provider = if is_empty update.provider then run.provider else update.provider;
  sandbox_id = update.sandbox_id;
  started_at_millis = run.started_at_millis;
  finished_at_millis = finished;
  duration_ms = if ltb 0 run.started_at_millis then finished - run.started_at_millis else 0;
  attempt = run.attempt;
  jobs = finished_jobs update run.jobs;
}

-- The columns that `update_run_leased` writes.
written : ActionRun → Stored → Stored
written run s = record {
  run = record {
    status = run.status;
    conclusion = run.conclusion;
    provider = run.provider;
    sandbox_id = run.sandbox_id;
    started_at_millis = run.started_at_millis;
    finished_at_millis = run.finished_at_millis;
    duration_ms = run.duration_ms;
    attempt = s.run.attempt;
    jobs = run.jobs;
  };
  locked_by = none;
  lease_expires_at = none;
  log_text = s.log_text;
}

-- Whether one row was affected, and the rows after the statement.
unfoldable pub update_run_leased : ActionRun → (worker : Bytes) → Stored → Bool × Stored
unfolding holds written
update_run_leased run worker s =
    if holds s.locked_by worker then (true, written run s) else (false, s)

-- `finish_run` up to its log, with the run that `db_run_by_id` has read before, if it has found one
-- without an error, and with whether the update fails. The text that is returned is the log that an
-- accepted result goes on to insert.
unfoldable pub finish_row :
    (read : Option ActionRun)
    → (fails : Bool) → (worker : Bytes) → FinishedRun
    → (finished : ℕ) → Stored
    → Option Bytes × Stored
unfolding apply_finished update_run_leased
finish_row none fails worker update finished s = (none, s)
finish_row (some run) true worker update finished s = (none, s)
finish_row (some run) false worker update finished s =
    let (accepted, t) = update_run_leased (apply_finished run update finished) worker s in
    (if accepted then some update.logs else none, t)

-- The insert into `action_logs`; where it fails, there is a warning and nothing else.
unfoldable pub insert_log : (fails : Bool) → (logs : Bytes) → Stored → Stored
insert_log true logs s = s
insert_log false logs s = record {
  run = s.run;
  locked_by = s.locked_by;
  lease_expires_at = s.lease_expires_at;
  log_text = some logs;
}

-- `finish_run` with nothing between its statements, and without the notification that follows them.
finish_run :
    (read : Option ActionRun)
    → (fails log_fails : Bool) → (worker : Bytes) → FinishedRun
    → (finished : ℕ) → Stored
    → Stored
unfolding finish_row insert_log
finish_run read fails log_fails worker update finished s =
    let (log, t) = finish_row read fails worker update finished s in
    elim log [ none ↦ t | some logs ↦ insert_log log_fails logs t ]

-- A status that nobody claims.
abbrev pub IsFinal : Bytes → Type 0
IsFinal status = (status ≢ lit "queued") × (status ≢ lit "running")

-- The rows, and the logs of the accepted results whose workers have still to insert them.
pub record System : Type 0 where
  pub stored : Stored
  pub open stored use *
  pub unlogged : List Bytes

-- The log of a result that was accepted waits to be inserted.
unfoldable pub finished_by : Option Bytes × Stored → List Bytes → System
finished_by (none, t) unlogged = record { stored = t; unlogged = unlogged }
finished_by (some logs, t) unlogged = record { stored = t; unlogged = logs ∷ unlogged }

-- What a worker does to the rows: a claim, a renewal, the two statements of `finish_run`.
pub data Step : (worker : Bytes) → System → System → Type 0 where
  claims :
      (worker : Bytes) (db_now now : ℕ) (s : System)
      → Step worker s
          (record { stored = (claim_run worker db_now now s.stored).1; unlogged = s.unlogged })
  renews :
      (worker : Bytes) (db_now : ℕ) (s : System)
      → Step worker s
          (record { stored = (renew_run_lease worker db_now s.stored).1; unlogged = s.unlogged })
  finishes :
      (read : Option ActionRun) (fails : Bool) (worker : Bytes) (update : FinishedRun)
      (finished : ℕ) (s : System)
      → IsFinal update.status
      → Step worker s
          (finished_by (finish_row read fails worker update finished s.stored) s.unlogged)
  logs :
      (worker : Bytes) (fails : Bool) (text : Bytes) (earlier later : List Bytes) (s : Stored)
      → Step worker
          (record { stored = s; unlogged = earlier ++ text ∷ later })
          (record { stored = insert_log fails text s; unlogged = earlier ++ later })

-- A claim has a new id, so a worker that has claimed the run makes no other claim of it.
abbrev pub IsNoClaimOf : (worker other : Bytes) (s t : System) → Step other s t → Type 0
IsNoClaimOf worker _ _ _ (claims other db_now now s) = other ≢ worker
IsNoClaimOf worker _ _ _ (renews other db_now s) = Unit
IsNoClaimOf worker _ _ _ (finishes read fails other update finished s final) = Unit
IsNoClaimOf worker _ _ _ (logs other fails text earlier later s) = Unit

-- Steps that are all as `P` says.
pub data Steps (P : (worker : Bytes) (s t : System) → Step worker s t → Type 0)
    : System → System → Type 0 where
  done : (s : System) → Steps P s s
  step :
      {worker : Bytes} {s t u : System} (one : Step worker s t)
      → P worker s t one
      → Steps P t u
      → Steps P s u
