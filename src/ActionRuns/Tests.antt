-- ===== src/ActionRuns/Tests.antt =====
-- Two workers and one Action run.
use clotho.Prelude.{◌≡◌, ◌⊎◌, inl, refl, true, false, none, some, [], ◌∷◌}
use clotho.Prelude.Bytes.{Bytes, lit, text_code}
use clotho.ActionRuns.{
  FinishedRun, Stored, System, claim_run, renew_run_lease, finish_row, finish_run, insert_log,
  finished_by, update_run_leased, has_expired, apply_finished, finished_jobs, IsFinal, IsNoClaimOf,
  claims, renews, finishes, logs, Steps, done, step,
}
use clotho.ActionRuns.Leases.{IsFinished, IsLogOf, finished-stays, lease-is_fenced, held-is_running}
use clotho.ActionRuns.Results.{accepted-stays}

lease_code : Unit {0}
unfolding claim_run renew_run_lease finish_row insert_log finished_by update_run_leased has_expired
    apply_finished finished_jobs text_code
lease_code = tt

abbrev first : Bytes
unfolding lit
first = lit "first"

abbrev second : Bytes
unfolding lit
second = lit "second"

abbrev queued_row : Stored
unfolding lit
queued_row = record {
  run = record {
    status = lit "queued";
    conclusion = [];
    provider = lit "daytona";
    sandbox_id = [];
    started_at_millis = 0;
    finished_at_millis = 0;
    duration_ms = 0;
    attempt = 0;
    jobs = [];
  };
  locked_by = none;
  lease_expires_at = none;
  log_text = none;
}

abbrev success : FinishedRun
unfolding lit
success = record {
  status = lit "completed";
  conclusion = lit "success";
  exit_code = none;
  logs = lit "done";
  provider = [];
  sandbox_id = [];
}

success-IsFinal : IsFinal success.status
unfolding lit
success-IsFinal = (λ h. cc, λ h. cc)

abbrev queued : System
queued = record { stored = queued_row; unlogged = [] }

-- The first worker's lease ends at 30005, and the second one claims the run later.
abbrev claimed_once : System
claimed_once = record { stored = (claim_run first 5 1000 queued.stored).1; unlogged = [] }

abbrev claimed_twice : System
claimed_twice = record {
  stored = (claim_run second 40000 41000 claimed_once.stored).1;
  unlogged = [];
}

abbrev over : System
over =
    finished_by
      (finish_row (some claimed_twice.run) false second success 42500 claimed_twice.stored)
      claimed_twice.unlogged

taken_over : (claimed_twice.locked_by ≡ some second) × (claimed_twice.run.attempt ≡ 2)
unfolding lease_code
taken_over = (refl, refl)

ends : (over.run.status ≡ lit "completed") × (over.run.duration_ms ≡ 1500) × (over.locked_by ≡ none)
unfolding lease_code
ends = (refl, refl, refl)

over_waits : (over.log_text ≡ none) × (over.unlogged ≡ success.logs ∷ [])
unfolding lease_code
over_waits = (refl, refl)

undisturbed :
    (finish_run
      (some claimed_twice.run)
      false
      false
      second
      success
      42500
      claimed_twice.stored).log_text
    ≡ some success.logs
unfolding lease_code finish_run
undisturbed = refl

warned :
    (finish_run
      (some claimed_twice.run)
      false
      true
      second
      success
      42500
      claimed_twice.stored).log_text
    ≡ none
unfolding lease_code finish_run
warned = refl

over-IsFinished : IsFinished over
unfolding lease_code
over-IsFinished = record { final = success-IsFinal; unlocked = refl }

-- The result of the first worker comes too late.
abbrev too_late : System
too_late =
    finished_by (finish_row (some claimed_once.run) false first success 43000 over.stored)
      over.unlogged

abbrev late : Steps (IsNoClaimOf first) over too_late
late =
    step (finishes (some claimed_once.run) false first success 43000 over success-IsFinal) tt
      (done too_late)

finished-stays_example :
    (too_late.run ≡ over.run)
    × (too_late.locked_by ≡ none)
    × (too_late.lease_expires_at ≡ over.lease_expires_at)
    × IsLogOf over.log_text over.unlogged too_late.log_text
finished-stays_example = finished-stays late over-IsFinished

first_holds : (renew_run_lease first 20 claimed_once.stored).1.locked_by ≡ some first
unfolding lease_code
first_holds = refl

abbrev renewed : System
renewed = record { stored = (renew_run_lease first 20 claimed_once.stored).1; unlogged = [] }

lease-is_fenced_example :
    (claimed_once.locked_by ≡ some first) × (renewed.run.attempt ≡ claimed_once.run.attempt)
lease-is_fenced_example =
    lease-is_fenced (step (renews first 20 claimed_once) tt (done renewed)) first_holds

second_holds : claimed_twice.locked_by ≡ some second
unfolding lease_code
second_holds = refl

abbrev waiting : Stored
unfolding lease_code
waiting = over.stored

abbrev logged : System
logged = record { stored = insert_log false success.logs waiting; unlogged = [] }

over_split : over ≡ record { stored = waiting; unlogged = success.logs ∷ [] }
unfolding lease_code
over_split = refl

logging : Steps (IsNoClaimOf first) over logged
unfolding lease_code
logging = step (logs second false success.logs [] [] waiting) tt (done logged)

accepted-stays_example :
    (logged.run.status ≡ success.status)
    × (logged.run.conclusion ≡ success.conclusion)
    × (logged.run.attempt ≡ claimed_twice.run.attempt)
    × (logged.locked_by ≡ none)
    × ((logged.log_text ≡ some success.logs) ⊎ (logged.log_text ≡ claimed_twice.log_text))
accepted-stays_example =
    accepted-stays second claimed_twice.run success 42500 refl (done claimed_twice) second_holds
      success-IsFinal logging

queued_unlocked : queued.locked_by ≡ none
unfolding queued_row
queued_unlocked = refl

held-is_running_example : (over.locked_by ≡ none) ⊎ (over.run.status ≡ lit "running")
held-is_running_example =
    held-is_running {P = λ worker s t one. Unit}
      (step (claims first 5 1000 queued) tt (
        step (claims second 40000 41000 claimed_once) tt (
          step
            (finishes (some claimed_twice.run) false second success 42500 claimed_twice
              success-IsFinal)
            tt (done over))))
      (inl queued_unlocked)
