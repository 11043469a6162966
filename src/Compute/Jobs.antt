-- ===== src/Compute/Jobs.antt =====
-- What the drivers of box_provider.rs and daytona.rs do alike: they poll a new sandbox until it is
-- ready, place files, run commands up to the first that fails, and tear the sandbox down.
use clotho.Prelude.{
  zero, suc, ℕ, ◌%◌, ◌^◌, ◌-◌, Bool, false, List, [], ◌∷◌, ◌++◌, leb, ltb, ◌==◌, ◌&&◌,
  if◌then◌else◌,
}
use clotho.Prelude.Bytes.{Bytes, lit}
use clotho.Prelude.Results.{ok, err}
use clotho.Prelude.Int.{ℤ, pos, negsuc}
use clotho.Compute.{ComputeError, invalid_job, JobFile}
use clotho.Compute.Calls.{Run, pure, throw, ◌>>=◌, ◌>>◌}

-- `StatusCode::is_success`
unfoldable pub is_success : (status : ℕ) → Bool
is_success status = leb 200 status && ltb status 300

-- `ends_with('\n')`
unfoldable pub ends_line : Bytes → Bool
ends_line [] = false
ends_line (c ∷ []) = c == 10
ends_line (c ∷ d ∷ rest) = ends_line (d ∷ rest)

-- A line break where the text has none at its end.
unfoldable pub with_line_end : Bytes → Bytes
unfolding ends_line
with_line_end text = if ends_line text then text else text ++ 10 ∷ []

unfoldable pub is_zero : ℤ → Bool
is_zero (pos n) = n == 0
is_zero (negsuc n) = false

-- A job without commands is refused.
unfoldable pub if_commands :
    {Call A : Type 0} → (commands : List Bytes) → Run Call ComputeError A → Run Call ComputeError A
if_commands [] job = throw (invalid_job "no commands")
if_commands (c ∷ cs) job = job

-- `i64 as i32`
unfoldable pub as_i32 : ℤ → ℤ
as_i32 (pos n) =
    let low = n % 2 ^ 32 in if ltb low (2 ^ 31) then pos low else negsuc (2 ^ 32 - 1 - low)
as_i32 (negsuc n) =
    let low = n % 2 ^ 32 in if ltb low (2 ^ 31) then negsuc low else pos (2 ^ 32 - 1 - low)

-- `'` as `'\''`
unfoldable pub escaped : Bytes → Bytes
escaped [] = []
escaped (c ∷ cs) = let rest = escaped cs in if c == b'\'' then lit "'\\''" ++ rest else c ∷ rest

unfoldable pub exports : (env : List (Bytes × Bytes)) → Bytes
unfolding escaped
exports [] = []
exports ((key, value) ∷ env) =
    lit "export " ++ key ++ lit "='" ++ escaped value ++ lit "'; " ++ exports env

-- What an answer to a poll means: go on polling, or the end of the wait.
pub data Polled : Type 0 where
  pending : Polled
  ready : Polled
  broken : (error : ComputeError) → Polled

module _ {Call : Type 0} where
  module _ (clock : List Call → ℕ) (poll : Run Call ComputeError Polled)
      (pause : Run Call ComputeError (Unit {0})) (late : ComputeError) (deadline : ℕ) where
    unfoldable pub after_poll :
        (again : Run Call ComputeError (Unit {0})) → Polled → Run Call ComputeError (Unit {0})
    after_poll again ready sent = (ok tt, sent)
    after_poll again (broken e) sent = (err e, sent)
    after_poll again pending sent =
        if leb deadline (clock sent) then (err late, sent) else again sent

    -- The loop, on fuel.
    unfoldable pub wait_from : (fuel : ℕ) → Run Call ComputeError (Unit {0})
    unfolding after_poll
    wait_from zero = throw late
    wait_from (suc fuel) = poll >>= after_poll (pause >> wait_from fuel)

  module _ (write : JobFile → Run Call ComputeError (Unit {0})) where
    unfoldable pub place_files : List JobFile → Run Call ComputeError (Unit {0})
    place_files [] = pure tt
    place_files (file ∷ files) = write file >> place_files files

  module _ (execute : (command : Bytes) → Run Call ComputeError (ℤ × Bytes)) where
    unfoldable pub after_command :
        (logs : Bytes)
        → (rest : Bytes → Run Call ComputeError (ℤ × Bytes)) → ℤ × Bytes
        → Run Call ComputeError (ℤ × Bytes)
    unfolding with_line_end is_zero
    after_command logs rest (code, output) sent =
        let now = logs ++ with_line_end output in
        if is_zero code then rest now sent else (ok (code, now), sent)

    -- The loop over the commands that are left; all before it have exited with 0.
    unfoldable pub run_commands : List Bytes → (logs : Bytes) → Run Call ComputeError (ℤ × Bytes)
    unfolding after_command
    run_commands [] logs = pure (pos 0, logs)
    run_commands (command ∷ commands) logs =
        execute command >>= after_command logs (run_commands commands)

  -- The result of the work, after the sandbox has been deleted.
  unfoldable pub then_delete :
      {A : Type 0}
      → (work : Run Call ComputeError A) → (delete : List Call → List Call)
      → Run Call ComputeError A
  then_delete work delete sent = let (result, now) = work sent in (result, delete now)
