-- ===== src/ActionRuns/Leases.antt =====
-- What leases guarantee about one Action run, whatever its workers do.
use clotho.Prelude.{
  ℕ, ◌≤◌, ◌≡◌, ◌≢◌, ◌⊎◌, inl, inr, refl, sym, ap, subst, ◌∙◌, true, false, ◌&&◌, Option, none, some,
  List, [], ◌∷◌, ◌++◌, All, All-mono, arith, Bool-cases,
}
use clotho.Prelude.Bytes.{Bytes, lit, beq, beq_iff, text_code}
use clotho.ActionRuns.{
  ActionRun, FinishedRun, Stored, System, holds, is_claimable, claim_run, renew_run_lease,
  update_run_leased, finish_row, insert_log, finished_by, IsFinal, IsNoClaimOf, has_expired, Step,
  claims, renews, finishes, logs, Steps, done, step,
}

-- A run that is over: its status is final and nobody holds it.
pub record IsFinished (s : System) : Type 0 where
  pub final : IsFinal s.run.status
  pub unlocked : s.locked_by ≡ none

pub unclaimable : (s : Stored) (db_now : ℕ) → IsFinal s.run.status → is_claimable s db_now ≡ false
unfolding is_claimable
unclaimable s db_now (q, r) =
    ground (arith, beq_iff s.run.status (lit "queued"), beq_iff s.run.status (lit "running"))

-- The row of the run is the same, and `Q` holds of its log and of the logs that wait.
record IsKept (Q : Option Bytes → Type 0) (s t : System) : Type 0 where
  run : t.run ≡ s.run
  lock : t.locked_by ≡ s.locked_by
  lease : t.lease_expires_at ≡ s.lease_expires_at
  log : Q t.log_text
  waiting : All (λ text. Q (some text)) t.unlogged

kept-IsFinished :
    {Q : Option Bytes → Type 0} {s t : System} → IsKept Q s t → IsFinished s → IsFinished t
kept-IsFinished k h = record {
  final = subst (λ run. IsFinal run.status) (sym k.run) h.final;
  unlocked = k.lock ∙ h.unlocked;
}

All-middle :
    (P : Bytes → Type 0) (earlier later : List Bytes) (text : Bytes)
    → All P (earlier ++ text ∷ later)
    → P text × All P (earlier ++ later)
All-middle P [] later text h = h
All-middle P (x ∷ earlier) later text (p, h) =
    let (q, k) = All-middle P earlier later text h in (q, (p, k))

module _ (Q : Option Bytes → Type 0) where
  Step-IsKept :
      {worker : Bytes} {s t : System}
      → Step worker s t
      → IsFinished s
      → Q s.log_text
      → All (λ text. Q (some text)) s.unlogged
      → IsKept Q s t
  unfolding claim_run renew_run_lease finish_row update_run_leased finished_by insert_log
  Step-IsKept (claims worker db_now now s) h q w =
      rw (unclaimable s.stored db_now h.final)
        (record { run = refl; lock = refl; lease = refl; log = q; waiting = w })
  Step-IsKept (renews worker db_now s) h q w =
      rw (h.unlocked) (record { run = refl; lock = refl; lease = refl; log = q; waiting = w })
  Step-IsKept (finishes none fails worker update finished s f) h q w = record {
    run = refl;
    lock = refl;
    lease = refl;
    log = q;
    waiting = w;
  }
  Step-IsKept (finishes (some read) true worker update finished s f) h q w = record {
    run = refl;
    lock = refl;
    lease = refl;
    log = q;
    waiting = w;
  }
  Step-IsKept (finishes (some read) false worker update finished s f) h q w =
      rw (h.unlocked) (record { run = refl; lock = refl; lease = refl; log = q; waiting = w })
  Step-IsKept (logs worker true text earlier later s) h q w = record {
    run = refl;
    lock = refl;
    lease = refl;
    log = q;
    waiting = (All-middle _ earlier later text w).1;
  }
  Step-IsKept (logs worker false text earlier later s) h q w =
      let (p, rest) = All-middle _ earlier later text w in
      record { run = refl; lock = refl; lease = refl; log = p; waiting = rest }

  Steps-IsKept :
      {P : (worker : Bytes) (s t : System) → Step worker s t → Type 0} {s t : System}
      → Steps P s t
      → IsFinished s
      → Q s.log_text
      → All (λ text. Q (some text)) s.unlogged
      → IsKept Q s t
  Steps-IsKept (done s) h q w = record {
    run = refl;
    lock = refl;
    lease = refl;
    log = q;
    waiting = w;
  }
  Steps-IsKept (step one p rest) h q w =
      let k = Step-IsKept one h q w in
      let m = Steps-IsKept rest (kept-IsFinished k h) k.log k.waiting in
      record {
        run = m.run ∙ k.run;
        lock = m.lock ∙ k.lock;
        lease = m.lease ∙ k.lease;
        log = m.log;
        waiting = m.waiting;
      }

-- A log that was there before, or one of those that wait.
abbrev pub IsLogOf : (before : Option Bytes) → (waiting : List Bytes) → Option Bytes → Type 0
IsLogOf before [] log = log ≡ before
IsLogOf before (text ∷ waiting) log = (log ≡ some text) ⊎ IsLogOf before waiting log

before-IsLogOf : (before : Option Bytes) (waiting : List Bytes) → IsLogOf before waiting before
before-IsLogOf before [] = refl
before-IsLogOf before (text ∷ waiting) = inr (before-IsLogOf before waiting)

waiting-IsLogOf :
    (before : Option Bytes) (waiting : List Bytes)
    → All (λ text. IsLogOf before waiting (some text)) waiting
waiting-IsLogOf before [] = tt
waiting-IsLogOf before (text ∷ waiting) =
    (inl refl, All-mono _ _ waiting (λ x h. inr h) (waiting-IsLogOf before waiting))

-- The row of a run that has a final status and no holder never changes again, whatever steps
-- follow, and its log stays or becomes that of a result that was accepted before.
pub finished-stays :
    {P : (worker : Bytes) (s t : System) → Step worker s t → Type 0} {s t : System}
    → Steps P s t
    → IsFinished s
    → (t.run ≡ s.run)
      × (t.locked_by ≡ none)
      × (t.lease_expires_at ≡ s.lease_expires_at)
      × IsLogOf s.log_text s.unlogged t.log_text
finished-stays {P} {s} {t} steps h =
    let k =
      Steps-IsKept (IsLogOf s.log_text s.unlogged) steps h (before-IsLogOf s.log_text s.unlogged)
        (waiting-IsLogOf s.log_text s.unlogged) in
    (k.run, k.lock ∙ h.unlocked, k.lease, k.log)

-- A step that is no claim of a worker does not make it the holder, and leaves the attempt as it is
-- if the worker holds the run after it.
Step-keeps_others :
    {worker other : Bytes} {s t : System} (one : Step other s t)
    → IsNoClaimOf worker other s t one
    → t.locked_by ≡ some worker
    → (s.locked_by ≡ some worker) × (t.run.attempt ≡ s.run.attempt)
unfolding claim_run renew_run_lease finish_row update_run_leased finished_by insert_log
Step-keeps_others (claims other db_now now s) ne h =
    elim (Bool-cases (is_claimable s.stored db_now)) [
      | inl c ↦ absurd (ne (let e = rw c at h in cc))
      | inr c ↦ (rw c at h, rw c)
    ]
Step-keeps_others (renews other db_now s) ne h =
    elim (Bool-cases (holds s.locked_by other && beq s.run.status (lit "running"))) [
      | inl c ↦ (rw c at h, rw c)
      | inr c ↦ (rw c at h, rw c)
    ]
Step-keeps_others (finishes none fails other update finished s f) ne h = (h, refl)
Step-keeps_others (finishes (some read) true other update finished s f) ne h = (h, refl)
Step-keeps_others (finishes (some read) false other update finished s f) ne h =
    elim (Bool-cases (holds s.locked_by other)) [
      | inl c ↦ cc (rw c at h)
      | inr c ↦ (rw c at h, rw c)
    ]
Step-keeps_others (logs other true text earlier later s) ne h = (h, refl)
Step-keeps_others (logs other false text earlier later s) ne h = (h, refl)

-- A worker that holds a run after any steps that are no claim of its own held it before them, and
-- the attempt is the same: no other worker has claimed the run in between.
pub lease-is_fenced :
    {worker : Bytes} {s t : System}
    → Steps (IsNoClaimOf worker) s t
    → t.locked_by ≡ some worker
    → (s.locked_by ≡ some worker) × (t.run.attempt ≡ s.run.attempt)
lease-is_fenced (done s) h = (h, refl)
lease-is_fenced (step one p rest) h =
    let (held, attempt) = lease-is_fenced rest h in
    let (held', attempt') = Step-keeps_others one p held in (held', attempt ∙ attempt')

not_held : (lock : Option Bytes) (worker : Bytes) → lock ≢ some worker → holds lock worker ≡ false
unfolding holds
not_held none worker h = refl
not_held (some w) worker h = elim (Bool-cases (beq w worker)) [
  | inl same ↦ absurd (h (ap some ((beq_iff w worker).0 same)))
  | inr differs ↦ differs
]

-- A worker that does not hold a run has no effect on it by its result, whatever steps but its own
-- claims come before.
finish-stale :
    {worker : Bytes} {s t : System} (read : ActionRun) (update : FinishedRun) (finished : ℕ)
    → s.locked_by ≢ some worker
    → Steps (IsNoClaimOf worker) s t
    → finish_row (some read) false worker update finished t.stored ≡ (none, t.stored)
unfolding finish_row update_run_leased
finish-stale {worker} {s} {t} read update finished lost steps =
    rw (not_held t.locked_by worker (λ held. lost (lease-is_fenced steps held).0))

running_not_queued : beq (lit "running") (lit "queued") ≡ false
unfolding text_code
running_not_queued = refl

-- A running run whose lease has not ended by Postgres' clock is claimed by nobody.
claim-leased :
    (worker : Bytes) (db_now now ends : ℕ) (s : Stored)
    → s.run.status ≡ lit "running"
    → s.lease_expires_at ≡ some ends
    → db_now ≤ ends
    → claim_run worker db_now now s ≡ (none, s)
unfolding claim_run is_claimable has_expired
claim-leased worker db_now now ends s running leased early = rw (unexpired)
  where
    unexpired : is_claimable s db_now ≡ false
    unexpired = rw (leased, running, running_not_queued) (ground arith)

Step-keeps_sound :
    {worker : Bytes} {s t : System}
    → Step worker s t
    → (s.locked_by ≡ none) ⊎ (s.run.status ≡ lit "running")
    → (t.locked_by ≡ none) ⊎ (t.run.status ≡ lit "running")
unfolding claim_run renew_run_lease finish_row update_run_leased finished_by insert_log
Step-keeps_sound (claims worker db_now now s) h = elim (Bool-cases (is_claimable s.stored db_now)) [
  | inl c ↦ inr (rw c)
  | inr c ↦ rw c h
]
Step-keeps_sound (renews worker db_now s) h =
    elim (Bool-cases (holds s.locked_by worker && beq s.run.status (lit "running"))) [
      | inl c ↦ rw c h
      | inr c ↦ rw c h
    ]
Step-keeps_sound (finishes none fails worker update finished s f) h = h
Step-keeps_sound (finishes (some read) true worker update finished s f) h = h
Step-keeps_sound (finishes (some read) false worker update finished s f) h =
    elim (Bool-cases (holds s.locked_by worker)) [ inl c ↦ inl (rw c) | inr c ↦ rw c h ]
Step-keeps_sound (logs worker true text earlier later s) h = h
Step-keeps_sound (logs worker false text earlier later s) h = h

-- A run that somebody holds is running, whatever steps led to it from a run that nobody held or
-- that was running.
pub held-is_running :
    {P : (worker : Bytes) (s t : System) → Step worker s t → Type 0} {s t : System}
    → Steps P s t
    → (s.locked_by ≡ none) ⊎ (s.run.status ≡ lit "running")
    → (t.locked_by ≡ none) ⊎ (t.run.status ≡ lit "running")
held-is_running (done s) h = h
held-is_running (step one p rest) h = held-is_running rest (Step-keeps_sound one h)
