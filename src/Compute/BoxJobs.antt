-- ===== src/Compute/BoxJobs.antt =====
-- Jobs in boxes: a box that was created is deleted, and the wait for it ends.
use clotho.Prelude.{
  suc, ℕ, ◌+◌, ◌*◌, ◌≤◌, ◌≡◌, inl, inr, refl, sym, ap, subst, fun_ext, ◌∙◌, not, ◌&&◌, Option, List,
  [], ◌∷◌, ◌++◌, All, arith, Bool-cases,
}
use clotho.Prelude.Bytes.{Bytes, beq}
use clotho.Prelude.Results.{Result, ok, err}
use clotho.Prelude.Int.{ℤ}
use clotho.Compute.{ComputeError, provider_failed, JobFile, JobSpec}
use clotho.Compute.Calls.{Run, pure, continue, ◌>>=◌, ◌>>◌, lift, Sends, lift-Sends, >>=-Sends}
use clotho.Compute.Jobs.{place_files, run_commands, then_delete, if_commands}
use clotho.Compute.Teardown.{
  wait_from_enough, wait_from-Sends, place_files-Sends, run_commands-Sends,
}
use clotho.Compute.Box.{
  Action, create_box, get_box, delete_box, put_file, run_command, sleep, Call, Answer, BoxConfig,
  request, ok_or_err, create, safe_env, poll_reply, execute_reply, poll, pause, wait_ready,
  ready_timeout, full_command, clamped, execute, staged, stage, stage_command, is_absolute,
  relative_path, write_file, run_on_box, delete, job_timeout, job_result, run_in_box,
  resolve_api_key, run_box_job,
}
use clotho.Compute.Base64.{base64_encode}

-- A request that leaves the box `id` in being, with this key.
pub data IsWork (api_key id : Bytes) : Call → Type 0 where
  polls : IsWork api_key id (record { api_key = api_key; action = get_box id })
  sleeps : IsWork api_key id (record { api_key = api_key; action = sleep })
  places :
      (path content : Bytes)
      → IsWork api_key id (record { api_key = api_key; action = put_file id path content })
  runs :
      (command : Bytes) (timeout : ℕ)
      → IsWork api_key id (record { api_key = api_key; action = run_command id command timeout })

-- What a job has sent after `sent`.
pub data IsTornDown (sent : List Call) : List Call → Type 0 where
  untouched : IsTornDown sent sent
  not_created :
      (api_key : Bytes) (ttl : Option ℕ) (env : List (Bytes × Bytes))
      → IsTornDown sent (sent ++ record { api_key = api_key; action = create_box ttl env } ∷ [])
  torn_down :
      (api_key id : Bytes) (ttl : Option ℕ) (env : List (Bytes × Bytes)) (work : List Call)
      → All (IsWork api_key id) work
      → IsTornDown sent (
          sent
          ++ record { api_key = api_key; action = create_box ttl env } ∷ []
          ++ work
          ++ record { api_key = api_key; action = delete_box id } ∷ [])

continue-lift :
    {A B : Type 0} (f : A → Result ComputeError B) (result : Result ComputeError A)
    (now : List Call)
    → (continue (λ a. lift (f a)) (result, now)).1 ≡ now
continue-lift f (ok a) now = refl
continue-lift f (err e) now = refl

module _ (answer : List Call → Call → Answer) (clock : List Call → ℕ) (notice : ℕ → Bytes)
    (api_key : Bytes) where
  request-Sends :
      {A : Type 0} (id : Bytes) (action : Action) (read : Answer → Result ComputeError A)
      → IsWork api_key id (record { api_key = api_key; action = action })
      → Sends (IsWork api_key id) (request answer clock notice api_key action read)
  unfolding request
  request-Sends id action read w sent =
      (record { api_key = api_key; action = action } ∷ [], refl, (w, tt))

  poll-Sends : (id : Bytes) → Sends (IsWork api_key id) (poll answer clock notice api_key id)
  unfolding poll
  poll-Sends id = request-Sends id (get_box id) poll_reply polls

  execute-Sends :
      (id : Bytes) (env : List (Bytes × Bytes)) (timeout : ℕ) (command : Bytes)
      → Sends (IsWork api_key id) (execute answer clock notice api_key id env timeout command)
  unfolding execute
  execute-Sends id env timeout command =
      request-Sends id (run_command id (full_command command env) (clamped timeout))
        (execute_reply answer clock notice api_key (clamped timeout)) (runs _ _)

  stage-Sends :
      (id rel path : Bytes)
      → Sends (IsWork api_key id) (stage answer clock notice api_key id rel path)
  unfolding stage
  stage-Sends id rel path sent = elim (Bool-cases (is_absolute path && not (beq path rel))) [
    | inl copied ↦ rw copied (
        >>=-Sends (IsWork api_key id)
          (execute answer clock notice api_key id [] 30 (stage_command rel path))
          (λ out. lift (staged out)) (execute-Sends id [] 30 (stage_command rel path))
          (λ out. lift-Sends (IsWork api_key id) (staged out)) sent)
    | inr in_place ↦
        rw in_place (lift-Sends {E = ComputeError} {A = Unit {0}} (IsWork api_key id) (ok tt) sent)
  ]

  write_file-Sends :
      (id : Bytes) (file : JobFile)
      → Sends (IsWork api_key id) (write_file answer clock notice api_key id file)
  unfolding write_file
  write_file-Sends id file =
      >>=-Sends (IsWork api_key id)
        (request answer clock notice api_key
          (put_file id (relative_path file.path) (base64_encode file.content)) ok_or_err)
        (λ passed. stage answer clock notice api_key id (relative_path file.path) file.path)
        (request-Sends id _ ok_or_err (places _ _))
        (λ passed. stage-Sends id (relative_path file.path) file.path)

  wait_ready-Sends :
      (fuel : ℕ) (id : Bytes)
      → Sends (IsWork api_key id) (wait_ready answer clock notice api_key fuel id)
  unfolding wait_ready pause
  wait_ready-Sends fuel id sent =
      wait_from-Sends (IsWork api_key id) clock (poll answer clock notice api_key id)
        (pause answer clock notice api_key) (provider_failed "box not ready")
        (clock sent + ready_timeout) fuel (poll-Sends id)
        (request-Sends id sleep (λ reply. ok tt) sleeps) sent

  run_on_box-Sends :
      (fuel : ℕ) (id : Bytes) (spec : JobSpec) (timeout : ℕ)
      → Sends (IsWork api_key id) (run_on_box answer clock notice api_key fuel id spec timeout)
  unfolding run_on_box
  run_on_box-Sends fuel id spec timeout =
      let write : JobFile → Run Call ComputeError (Unit {0}) =
        write_file answer clock notice api_key id in
      let run : Bytes → Run Call ComputeError (ℤ × Bytes) =
        execute answer clock notice api_key id spec.env timeout in
      >>=-Sends (IsWork api_key id) (wait_ready answer clock notice api_key fuel id)
        (λ passed. place_files write spec.files >> run_commands run spec.commands [])
        (wait_ready-Sends fuel id)
        (λ passed.
          >>=-Sends (IsWork api_key id) (place_files write spec.files)
            (λ placed. run_commands run spec.commands [])
            (place_files-Sends (IsWork api_key id) write spec.files (write_file-Sends id))
            (λ placed.
              run_commands-Sends (IsWork api_key id) run spec.commands []
                (execute-Sends id spec.env timeout)))

  then_delete-sent :
      {A B : Type 0} (work : Run Call ComputeError A) (id : Bytes) (f : A → B) (now : List Call)
      → ((then_delete work (delete answer clock notice api_key id) >>= λ out. pure (f out)) now).1
        ≡ (work now).1 ++ record { api_key = api_key; action = delete_box id } ∷ []
  unfolding then_delete delete
  then_delete-sent {A = A} {B = B} work id f now = of_result (work now).0 (work now).1
    where
      of_result :
          (result : Result ComputeError A) (later : List Call)
          → (continue
              (λ out. pure (f out))
              (result, later ++ record { api_key = api_key; action = delete_box id } ∷ [])).1
            ≡ later ++ record { api_key = api_key; action = delete_box id } ∷ []
      of_result (ok a) later = refl
      of_result (err e) later = refl

  in_box-IsTornDown :
      (fuel : ℕ) (config : BoxConfig) (spec : JobSpec) (sent : List Call)
      (step : Result ComputeError Bytes × List Call)
      → step.1
        ≡ sent
          ++ record {
            api_key = api_key;
            action = create_box config.default_ttl_secs (safe_env spec.env);
          }
            ∷ []
      → IsTornDown sent
          (continue
            (λ id.
              then_delete
                (run_on_box answer clock notice api_key fuel id spec
                  (job_timeout spec.timeout_secs))
                (delete answer clock notice api_key id)
              >>= λ out. pure (job_result id out))
            step).1
  in_box-IsTornDown fuel config spec sent (err e, now) h =
      subst (IsTornDown sent) (sym h)
        (not_created api_key config.default_ttl_secs (safe_env spec.env))
  in_box-IsTornDown fuel config spec sent (ok id, now) h =
      let timeout = job_timeout spec.timeout_secs in
      let work : Run Call ComputeError (ℤ × Bytes) =
        run_on_box answer clock notice api_key fuel id spec timeout in
      let (added, e, all) = run_on_box-Sends fuel id spec timeout now in
      subst (IsTornDown sent)
        (sym (
          then_delete-sent work id (job_result id) now
          ∙ ap (λ x. x ++ record { api_key = api_key; action = delete_box id } ∷ [])
              (e ∙ ap (λ x. x ++ added) h)))
        (torn_down api_key id config.default_ttl_secs (safe_env spec.env) added all)

  run_in_box-IsTornDown :
      (fuel : ℕ) (config : BoxConfig) (spec : JobSpec) (sent : List Call)
      → IsTornDown sent (run_in_box answer clock notice api_key fuel config spec sent).1
  unfolding run_in_box create request
  run_in_box-IsTornDown fuel config spec sent =
      in_box-IsTornDown fuel config spec sent
        (create answer clock notice api_key config.default_ttl_secs spec.env sent) refl

module _ (answer : List Call → Call → Answer) (clock : List Call → ℕ) (notice : ℕ → Bytes)
    (trim : Bytes → Bytes) where
  keyed-IsTornDown :
      (fuel : ℕ) (config : BoxConfig) (spec : JobSpec) (sent : List Call)
      (key : Result ComputeError Bytes)
      → IsTornDown sent
          (continue
            (λ api_key. run_in_box answer clock notice api_key fuel config spec)
            (key, sent)).1
  keyed-IsTornDown fuel config spec sent (ok key) =
      run_in_box-IsTornDown answer clock notice key fuel config spec sent
  keyed-IsTornDown fuel config spec sent (err e) = untouched

  -- Whatever the service answers, a job sends nothing, or only the request for a box, or that request,
  -- then requests that use the box, and last the one that deletes it, all with one key.
  pub run_box_job-IsTornDown :
      (fuel : ℕ) (config : BoxConfig) (spec : JobSpec) (sent : List Call)
      → IsTornDown sent (run_box_job answer clock notice trim fuel config spec sent).1
  unfolding run_box_job if_commands
  run_box_job-IsTornDown fuel config spec sent = of_commands spec.commands
    where
      of_commands :
          (commands : List Bytes)
          → IsTornDown sent
              (if_commands commands
                (lift (resolve_api_key trim config.configured_key spec) >>= λ api_key.
                  run_in_box answer clock notice api_key fuel config spec)
                sent).1
      of_commands [] = untouched
      of_commands (c ∷ cs) =
          keyed-IsTornDown fuel config spec sent (resolve_api_key trim config.configured_key spec)

-- A clock that never runs back, and that a sleep moves by two seconds.
pub record IsClock (clock : List Call → ℕ) : Type 0 where
  pub forward : (sent : List Call) (call : Call) → clock sent ≤ clock (sent ++ call ∷ [])
  pub sleeps_on :
      (sent : List Call) (api_key : Bytes)
      → clock sent + 2000 ≤ clock (sent ++ record { api_key = api_key; action = sleep } ∷ [])

module _ (answer : List Call → Call → Answer) (clock : List Call → ℕ) (notice : ℕ → Bytes)
    (ticks : IsClock clock) where
  wait_ready_enough :
      (more : ℕ) (api_key id : Bytes) (sent : List Call)
      → wait_ready answer clock notice api_key (suc (more + 150)) id sent
        ≡ wait_ready answer clock notice api_key 151 id sent
  unfolding wait_ready ready_timeout
  wait_ready_enough more api_key id sent =
      wait_from_enough clock (poll answer clock notice api_key id)
        (pause answer clock notice api_key) (provider_failed "box not ready")
        (clock sent + 300 * 1000) 2000 (polls_on api_key id) (pauses_on api_key) (passes api_key)
        150 more sent (omega arith)
    where
      polls_on :
          (api_key id : Bytes) (sent : List Call)
          → clock sent ≤ clock (poll answer clock notice api_key id sent).1
      polls_on api_key id sent = unfold poll request in ticks.forward sent _

      pauses_on :
          (api_key : Bytes) (sent : List Call)
          → clock sent + 2000 ≤ clock (pause answer clock notice api_key sent).1
      pauses_on api_key sent = unfold pause request in ticks.sleeps_on sent api_key

      passes :
          (api_key : Bytes) (sent : List Call) → (pause answer clock notice api_key sent).0 ≡ ok tt
      passes api_key sent = unfold pause request in refl

  -- A job ends: with fuel for 151 polls of the new box, more fuel changes nothing, if the clock never
  -- runs back and a sleep takes two seconds.
  pub run_box_job_enough :
      (trim : Bytes → Bytes) (config : BoxConfig) (spec : JobSpec) (more : ℕ) (sent : List Call)
      → run_box_job answer clock notice trim (suc (more + 150)) config spec sent
        ≡ run_box_job answer clock notice trim 151 config spec sent
  unfolding run_box_job run_in_box run_on_box
  run_box_job_enough trim config spec more sent =
      ap
        (λ wait.
          if_commands spec.commands
            (lift (resolve_api_key trim config.configured_key spec) >>= λ key.
              create answer clock notice key config.default_ttl_secs spec.env >>= λ id.
              then_delete
                (wait key id
                  >> (place_files (write_file answer clock notice key id) spec.files
                      >> run_commands
                          (execute answer clock notice key id spec.env
                            (job_timeout spec.timeout_secs))
                          spec.commands []))
                (delete answer clock notice key id)
              >>= λ out. pure (job_result id out))
            sent)
        (fun_ext (λ key. fun_ext (λ id. fun_ext (λ now. wait_ready_enough more key id now))))
