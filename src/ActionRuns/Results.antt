-- ===== src/ActionRuns/Results.antt =====
-- The result that a run keeps: the one that was accepted, whatever its workers do before and after.
use clotho.Prelude.{
  ℕ, ◌≡◌, ◌⊎◌, inl, inr, refl, ap, subst, ◌∙◌, true, false, Option, none, some, List, [], ◌∷◌,
  Bool-cases,
}
use clotho.Prelude.Bytes.{Bytes, beq_refl}
use clotho.ActionRuns.{
  ActionRun, FinishedRun, System, holds, claim_run, renew_run_lease, apply_finished,
  update_run_leased, finish_row, insert_log, finished_by, IsFinal, IsNoClaimOf, Step, claims,
  renews, finishes, logs, Steps, done, step,
}
use clotho.ActionRuns.Leases.{IsFinished, unclaimable, IsLogOf, finished-stays, lease-is_fenced}

Step-logs_last :
    {worker : Bytes} {s t : System}
    → Step worker s t
    → (s.unlogged ≡ []) ⊎ IsFinished s
    → (t.unlogged ≡ []) ⊎ IsFinished t
unfolding claim_run renew_run_lease finish_row update_run_leased finished_by insert_log
Step-logs_last (claims worker db_now now s) (inl e) = inl e
Step-logs_last (claims worker db_now now s) (inr h) =
    inr
      (rw (unclaimable s.stored db_now h.final) (record { final = h.final; unlocked = h.unlocked }))
Step-logs_last (renews worker db_now s) (inl e) = inl e
Step-logs_last (renews worker db_now s) (inr h) =
    inr (rw (h.unlocked) (record { final = h.final; unlocked = refl }))
Step-logs_last (finishes none fails worker update finished s f) h = h
Step-logs_last (finishes (some read) true worker update finished s f) h = h
Step-logs_last (finishes (some read) false worker update finished s f) h =
    elim (Bool-cases (holds s.locked_by worker)) [
      | inl c ↦ inr (rw c (record { final = f; unlocked = refl }))
      | inr c ↦ rw c h
    ]
Step-logs_last (logs worker fails text [] later s) (inl e) = cc
Step-logs_last (logs worker fails text (x ∷ earlier) later s) (inl e) = cc
Step-logs_last (logs worker true text earlier later s) (inr h) =
    inr (record { final = h.final; unlocked = h.unlocked })
Step-logs_last (logs worker false text earlier later s) (inr h) =
    inr (record { final = h.final; unlocked = h.unlocked })

Steps-logs_last :
    {P : (worker : Bytes) (s t : System) → Step worker s t → Type 0} {s t : System}
    → Steps P s t
    → (s.unlogged ≡ []) ⊎ IsFinished s
    → (t.unlogged ≡ []) ⊎ IsFinished t
Steps-logs_last (done s) h = h
Steps-logs_last (step one p rest) h = Steps-logs_last rest (Step-logs_last one h)

nothing_waits :
    {worker : Bytes} (s : System)
    → (s.unlogged ≡ []) ⊎ IsFinished s
    → s.locked_by ≡ some worker
    → s.unlogged ≡ []
nothing_waits s (inl e) held = e
nothing_waits s (inr h) held = let free = h.unlocked in cc

accepted-IsFinished :
    (worker : Bytes) (read : ActionRun) (update : FinishedRun) (finished : ℕ) (s : System)
    → s.locked_by ≡ some worker
    → IsFinal update.status
    → s.unlogged ≡ []
    → (let t =
          finished_by (finish_row (some read) false worker update finished s.stored) s.unlogged in
        IsFinished t
        × (t.run.status ≡ update.status)
        × (t.run.conclusion ≡ update.conclusion)
        × (t.run.attempt ≡ s.run.attempt)
        × (t.log_text ≡ s.log_text)
        × (t.unlogged ≡ update.logs ∷ []))
unfolding finish_row update_run_leased apply_finished finished_by
accepted-IsFinished worker read update finished s held final waits =
    rw (held, holds, beq_refl worker, waits)
      (record { final = final; unlocked = refl }, refl, refl, refl, refl, refl)

-- The result of a worker that still holds the run, after any steps but its own claims since it held
-- the run when no log was waiting, is the last word on it: whatever steps follow, the run has this
-- status, this conclusion and the attempt of the worker's claim, nobody holds it, and its log is
-- the result's or, until that is inserted, the one before.
pub accepted-stays :
    {P : (worker : Bytes) (s t : System) → Step worker s t → Type 0} {s t u : System}
    (worker : Bytes) (read : ActionRun) (update : FinishedRun) (finished : ℕ)
    → s.unlogged ≡ []
    → Steps (IsNoClaimOf worker) s t
    → t.locked_by ≡ some worker
    → IsFinal update.status
    → Steps P
        (finished_by (finish_row (some read) false worker update finished t.stored) t.unlogged)
        u
    → (u.run.status ≡ update.status)
      × (u.run.conclusion ≡ update.conclusion)
      × (u.run.attempt ≡ s.run.attempt)
      × (u.locked_by ≡ none)
      × ((u.log_text ≡ some update.logs) ⊎ (u.log_text ≡ t.log_text))
accepted-stays {t} worker read update finished none_yet before held final after =
    let empty = nothing_waits t (Steps-logs_last before (inl none_yet)) held in
    let (over, status, conclusion, attempt, log, waits) =
      accepted-IsFinished worker read update finished t held final empty in
    let (run, free, lease, logged) = finished-stays after over in
    (
      ap (λ r. r.status) run ∙ status,
      ap (λ r. r.conclusion) run ∙ conclusion,
      ap (λ r. r.attempt) run ∙ attempt ∙ (lease-is_fenced before held).1,
      free,
      last_log waits log logged,
    )
  where
    last_log :
        {texts : List Bytes} {before now : Option Bytes}
        → texts ≡ update.logs ∷ []
        → before ≡ t.log_text
        → IsLogOf before texts now
        → (now ≡ some update.logs) ⊎ (now ≡ t.log_text)
    last_log {texts} {before} {now} e e' h =
        subst (λ b. IsLogOf b (update.logs ∷ []) now) e' (subst (λ l. IsLogOf before l now) e h)
