-- ===== src/Compute/Stopping.antt =====
-- Where a job's commands stop.
use clotho.Prelude.{
  ◌≡◌, inl, inr, refl, sym, ap, ◌∙◌, true, false, List, [], ◌∷◌, ◌++◌, append_assoc, append-nil,
  Bool-cases, arith,
}
use clotho.Prelude.Bytes.{Bytes}
use clotho.Prelude.Results.{Result, ok, err, ok-injective}
use clotho.Prelude.Int.{ℤ, pos, negsuc}
use clotho.Compute.{ComputeError}
use clotho.Compute.Calls.{Run, continue}
use clotho.Compute.Jobs.{is_zero, with_line_end, after_command, run_commands}

module _ {Call : Type 0} (execute : (command : Bytes) → Run Call ComputeError (ℤ × Bytes)) where
  -- Commands that were executed one after the other: all that are left, each with 0, or those up to
  -- the first one with another code. `logs` is what they have written.
  pub data Ran : List Bytes → List Call → (code : ℤ) → (logs : Bytes) → List Call → Type 0 where
    all_passed : {sent : List Call} → Ran [] sent (pos 0) [] sent
    failed :
        {command : Bytes} {rest : List Bytes} {sent now : List Call} {code : ℤ} {output : Bytes}
        → execute command sent ≡ (ok (code, output), now)
        → is_zero code ≡ false
        → Ran (command ∷ rest) sent code (with_line_end output) now
    passed :
        {command : Bytes} {rest : List Bytes} {sent now then_ : List Call} {code : ℤ}
        {output logs : Bytes}
        → execute command sent ≡ (ok (pos 0, output), now)
        → Ran rest now code logs then_
        → Ran (command ∷ rest) sent code (with_line_end output ++ logs) then_

  is_zero-eq : (code : ℤ) → is_zero code ≡ true → code ≡ pos 0
  unfolding is_zero
  is_zero-eq (pos n) h = ap pos (ground arith)
  is_zero-eq (negsuc n) h = cc

  outcome-injective :
      {code code' : ℤ} {logs logs' : Bytes} {now now' : List Call}
      → ◌≡◌ {A = Result ComputeError (ℤ × Bytes) × List Call}
          (ok (code, logs), now)
          (ok (code', logs'), now')
      → (code ≡ code') × (logs ≡ logs') × (now ≡ now')
  outcome-injective h =
      let same = ok-injective (ap (λ x. x.0) h) in
      (ap (λ x. x.0) same, ap (λ x. x.1) same, ap (λ x. x.1) h)

  -- A run of commands that returns a code has executed them in order up to the first that did not exit
  -- with 0, whose code it returns, or all of them, with the code 0, and none after; and its logs are the
  -- outputs of those, each with a line end.
  pub run_commands-Ran :
      (commands : List Bytes) (before : Bytes) (sent now : List Call) (code : ℤ) (logs : Bytes)
      → run_commands execute commands before sent ≡ (ok (code, logs), now)
      → (written : Bytes) × (logs ≡ before ++ written) × Ran commands sent code written now
  unfolding run_commands after_command
  run_commands-Ran [] before sent now code logs h =
      let (c, l, n) = outcome-injective h in
      ([], sym l ∙ sym (append-nil before), rw (← c, ← n) all_passed)
  run_commands-Ran (command ∷ commands) before sent now code logs h =
      of_step (execute command sent) refl h
        (λ logs_before from. run_commands-Ran commands logs_before from now code logs)
    where
      of_step :
          (step : Result ComputeError (ℤ × Bytes) × List Call)
          → execute command sent ≡ step
          → continue (after_command execute before (run_commands execute commands)) step
            ≡ (ok (code, logs), now)
          → ((logs_before : Bytes) (from : List Call)
              → run_commands execute commands logs_before from ≡ (ok (code, logs), now)
              → (written : Bytes) × (logs ≡ logs_before ++ written)
                × Ran commands from code written now)
          → (written : Bytes) × (logs ≡ before ++ written)
            × Ran (command ∷ commands) sent code written now
      of_step (err e, later) is_step h rest = cc (ap (λ x. x.0) h)
      of_step (ok (c, output), later) is_step h rest = elim (Bool-cases (is_zero c)) [
        | inl went_on ↦
            let (written, l, ran) = rest (before ++ with_line_end output) later (rw went_on at h) in
            (
              with_line_end output ++ written,
              l ∙ append_assoc before (with_line_end output) written,
              passed (is_step ∙ ap (λ x. (ok (x, output), later)) (is_zero-eq c went_on)) ran,
            )
        | inr stopped ↦
            let (same, l, n) = outcome-injective (rw stopped at h) in
            (with_line_end output, sym l, rw (← same, ← n) (failed is_step stopped))
      ]
