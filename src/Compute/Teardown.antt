-- ===== src/Compute/Teardown.antt =====
-- What the drivers' common steps send, if each request they are made of is of one kind; and that
-- the loops end.
use clotho.Prelude.{
  zero, suc, ℕ, ◌+◌, ◌*◌, ◌≤◌, ◌≡◌, inl, inr, refl, sym, ap, ◌∙◌, false, List, [], ◌∷◌, ◌++◌, leb,
  arith, Bool-cases,
}
use clotho.Prelude.Bytes.{Bytes}
use clotho.Prelude.Results.{Result, ok, err}
use clotho.Prelude.Int.{ℤ, pos}
use clotho.Compute.{ComputeError, JobFile}
use clotho.Compute.Calls.{Run, continue, ◌>>◌, Sends, lift-Sends, >>=-Sends}
use clotho.Compute.Jobs.{
  Polled, pending, ready, broken, after_poll, wait_from, place_files, after_command, run_commands,
  is_zero, with_line_end,
}

module _ {Call : Type 0} (P : Call → Type 0) where
  module _ (clock : List Call → ℕ) (poll : Run Call ComputeError Polled)
      (pause : Run Call ComputeError (Unit {0})) (late : ComputeError) (deadline : ℕ) where
    after_poll-Sends :
        (again : Run Call ComputeError (Unit {0})) (p : Polled)
        → Sends P again
        → Sends P (after_poll clock poll pause late deadline again p)
    unfolding after_poll
    after_poll-Sends again ready h sent =
        lift-Sends {E = ComputeError} {A = Unit {0}} P (ok tt) sent
    after_poll-Sends again (broken e) h sent =
        lift-Sends {E = ComputeError} {A = Unit {0}} P (err e) sent
    after_poll-Sends again pending h sent = elim (Bool-cases (leb deadline (clock sent))) [
      | inl over ↦ rw over (lift-Sends {E = ComputeError} {A = Unit {0}} P (err late) sent)
      | inr on ↦ rw on (h sent)
    ]

    pub wait_from-Sends :
        (fuel : ℕ)
        → Sends P poll
        → Sends P pause
        → Sends P (wait_from clock poll pause late deadline fuel)
    unfolding wait_from
    wait_from-Sends zero h k = lift-Sends {E = ComputeError} {A = Unit {0}} P (err late)
    wait_from-Sends (suc fuel) h k =
        >>=-Sends P poll
          (after_poll clock poll pause late deadline
            (pause >> wait_from clock poll pause late deadline fuel))
          h
          (λ p. after_poll-Sends _ p (
            >>=-Sends P pause (λ passed. wait_from clock poll pause late deadline fuel) k
              (λ passed. wait_from-Sends fuel h k)))

  pub place_files-Sends :
      (write : JobFile → Run Call ComputeError (Unit {0})) (files : List JobFile)
      → ((file : JobFile) → Sends P (write file))
      → Sends P (place_files write files)
  unfolding place_files
  place_files-Sends write [] h = lift-Sends {E = ComputeError} {A = Unit {0}} P (ok tt)
  place_files-Sends write (file ∷ files) h =
      >>=-Sends P (write file) (λ passed. place_files write files) (h file)
        (λ passed. place_files-Sends write files h)

  after_command-Sends :
      (execute : Bytes → Run Call ComputeError (ℤ × Bytes)) (logs : Bytes)
      (rest : Bytes → Run Call ComputeError (ℤ × Bytes)) (out : ℤ × Bytes)
      → ((now : Bytes) → Sends P (rest now))
      → Sends P (after_command execute logs rest out)
  unfolding after_command
  after_command-Sends execute logs rest (code, output) h sent = elim (Bool-cases (is_zero code)) [
    | inl zero_ ↦ rw zero_ (h (logs ++ with_line_end output) sent)
    | inr failed ↦ rw failed (
        lift-Sends {E = ComputeError} {A = ℤ × Bytes} P (ok (code, logs ++ with_line_end output))
          sent)
  ]

  pub run_commands-Sends :
      (execute : Bytes → Run Call ComputeError (ℤ × Bytes)) (commands : List Bytes) (logs : Bytes)
      → ((command : Bytes) → Sends P (execute command))
      → Sends P (run_commands execute commands logs)
  unfolding run_commands
  run_commands-Sends execute [] logs h =
      lift-Sends {E = ComputeError} {A = ℤ × Bytes} P (ok (pos 0, logs))
  run_commands-Sends execute (command ∷ commands) logs h =
      >>=-Sends P (execute command) (after_command execute logs (run_commands execute commands))
        (h command)
        (λ out.
          after_command-Sends execute logs (run_commands execute commands) out
            (λ now. run_commands-Sends execute commands now h))

-- The wait ends: with fuel for the turns until the deadline, more fuel changes nothing.
module _ {Call : Type 0} (clock : List Call → ℕ) (poll : Run Call ComputeError Polled)
    (pause : Run Call ComputeError (Unit {0})) (late : ComputeError) (deadline interval : ℕ)
    (poll_advances : (sent : List Call) → clock sent ≤ clock (poll sent).1)
    (pause_advances : (sent : List Call) → clock sent + interval ≤ clock (pause sent).1)
    (pause_passes : (sent : List Call) → (pause sent).0 ≡ ok tt) where
  after_poll-same :
      (again again' : Run Call ComputeError (Unit {0}))
      (step : Result ComputeError Polled × List Call)
      → (leb deadline (clock step.1) ≡ false → again step.1 ≡ again' step.1)
      → continue (after_poll clock poll pause late deadline again) step
        ≡ continue (after_poll clock poll pause late deadline again') step
  unfolding after_poll
  after_poll-same again again' (err e, now) h = refl
  after_poll-same again again' (ok ready, now) h = refl
  after_poll-same again again' (ok (broken e), now) h = refl
  after_poll-same again again' (ok pending, now) h = elim (Bool-cases (leb deadline (clock now))) [
    | inl over ↦ rw over refl
    | inr on ↦ rw on (h on)
  ]

  continue_passed :
      (next : Run Call ComputeError (Unit {0})) (sent : List Call)
      → continue (λ passed. next) (pause sent) ≡ next (pause sent).1
  continue_passed next sent = of_step (pause sent) (pause_passes sent)
    where
      of_step :
          (step : Result ComputeError (Unit {0}) × List Call)
          → step.0 ≡ ok tt
          → continue (λ passed. next) step ≡ next step.1
      of_step (ok u, now) h = refl
      of_step (err e, now) h = cc

  pub wait_from_enough :
      (fuel more : ℕ) (sent : List Call)
      → deadline ≤ clock sent + interval * fuel
      → wait_from clock poll pause late deadline (suc (more + fuel)) sent
        ≡ wait_from clock poll pause late deadline (suc fuel) sent
  unfolding wait_from
  wait_from_enough zero more sent h =
      after_poll-same _ _ (poll sent)
        (λ on. absurd (late_turn (clock (poll sent).1) (clock sent) h (poll_advances sent) on))
    where
      late_turn :
          (now before : ℕ)
          → deadline ≤ before + interval * zero
          → before ≤ now
          → leb deadline now ≡ false
          → ⊥
      late_turn now before h le on = ground arith
  wait_from_enough (suc fuel) more sent h = after_poll-same _ _ (poll sent) (λ on.
      let now = (poll sent).1 in
      let turns : more + suc fuel ≡ suc (more + fuel) = omega arith in
      ap (λ n. (pause >> wait_from clock poll pause late deadline n) now) turns
      ∙ continue_passed (wait_from clock poll pause late deadline (suc (more + fuel))) now
      ∙ wait_from_enough fuel more (pause now).1 (
          time (clock sent) (clock now) (clock (pause now).1) h (poll_advances sent)
            (pause_advances now))
      ∙ sym (continue_passed (wait_from clock poll pause late deadline (suc fuel)) now))
    where
      time :
          (before now later : ℕ)
          → deadline ≤ before + interval * suc fuel
          → before ≤ now
          → now + interval ≤ later
          → deadline ≤ later + interval * fuel
      time before now later h le le' = grind arith
