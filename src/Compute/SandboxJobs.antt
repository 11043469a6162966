-- ===== src/Compute/SandboxJobs.antt =====
-- Jobs in Daytona sandboxes: a sandbox that was created is deleted.
use clotho.Prelude.{
  ℕ, ◌+◌, ◌≡◌, refl, sym, ap, subst, ◌∙◌, Option, none, some, List, [], ◌∷◌, ◌++◌, All,
}
use clotho.Prelude.Bytes.{Bytes}
use clotho.Prelude.Results.{Result, ok, err}
use clotho.Prelude.Int.{ℤ}
use clotho.Compute.{ComputeError, provider_failed, JobFile, JobSpec}
use clotho.Compute.Calls.{Run, pure, continue, ◌>>=◌, ◌>>◌, lift, Sends, lift-Sends, >>=-Sends}
use clotho.Compute.Jobs.{place_files, run_commands, then_delete, if_commands}
use clotho.Compute.Teardown.{wait_from-Sends, place_files-Sends, run_commands-Sends}
use clotho.Compute.Box.{full_command}
use clotho.Compute.Daytona.{
  Action, create_sandbox, get_sandbox, delete_sandbox, make_folder, upload, execute_process, sleep,
  Call, Answer, DaytonaConfig, urlencode, ok_or_err, start_reply, execute_reply, folder_of,
  file_name_of, target_of, snapshot_of, command_timeout, daytona_key, start_timeout, sandbox_result,
  create_reply, request, wait_started, ensure_parent_dir, upload_file, execute_command,
  run_on_sandbox, run_in_sandbox, run_daytona_job,
}

-- A request that uses the sandbox `id`, with this key.
pub data IsUse (api_key id : Bytes) : Call → Type 0 where
  polls : IsUse api_key id (record { api_key = api_key; action = get_sandbox id })
  sleeps : IsUse api_key id (record { api_key = api_key; action = sleep })
  makes :
      (path : Bytes) → IsUse api_key id (record { api_key = api_key; action = make_folder id path })
  uploads :
      (path file_name content : Bytes)
      → IsUse api_key id (record { api_key = api_key; action = upload id path file_name content })
  executes :
      (command : Bytes) (timeout : ℕ)
      → IsUse api_key id (record { api_key = api_key; action = execute_process id command timeout })

-- What a job has sent after `sent`.
pub data IsFreed (sent : List Call) : List Call → Type 0 where
  unsent : IsFreed sent sent
  refused :
      (api_key snapshot : Bytes) (target : Option Bytes)
      → IsFreed sent
          (sent ++ record { api_key = api_key; action = create_sandbox snapshot target } ∷ [])
  freed :
      (api_key id snapshot : Bytes) (target : Option Bytes) (uses : List Call)
      → All (IsUse api_key id) uses
      → IsFreed sent (
          sent
          ++ record { api_key = api_key; action = create_sandbox snapshot target } ∷ []
          ++ uses
          ++ record { api_key = api_key; action = delete_sandbox id } ∷ [])

module _ (answer : List Call → Call → Answer) (api_key : Bytes) where
  uses_sandbox :
      {A : Type 0} (id : Bytes) (action : Action) (read : Answer → Result ComputeError A)
      → IsUse api_key id (record { api_key = api_key; action = action })
      → Sends (IsUse api_key id) (request answer api_key action read)
  unfolding request
  uses_sandbox id action read w sent =
      (record { api_key = api_key; action = action } ∷ [], refl, (w, tt))

  wait_started-Sends :
      (clock : List Call → ℕ) (fuel : ℕ) (id : Bytes)
      → Sends (IsUse api_key id) (wait_started answer api_key clock fuel id)
  unfolding wait_started
  wait_started-Sends clock fuel id sent =
      wait_from-Sends (IsUse api_key id) clock (request answer api_key (get_sandbox id) start_reply)
        (request answer api_key sleep (λ reply. ok tt)) (provider_failed "sandbox not started")
        (clock sent + start_timeout) fuel (uses_sandbox id (get_sandbox id) start_reply polls)
        (uses_sandbox id sleep (λ reply. ok tt) sleeps) sent

  ensure_parent_dir-Sends :
      (id : Bytes) (folder : Option Bytes)
      → Sends (IsUse api_key id) (ensure_parent_dir answer api_key id folder)
  unfolding ensure_parent_dir
  ensure_parent_dir-Sends id none =
      lift-Sends {E = ComputeError} {A = Unit {0}} (IsUse api_key id) (ok tt)
  ensure_parent_dir-Sends id (some parent) =
      uses_sandbox id (make_folder id (urlencode parent)) (λ reply. ok tt) (makes _)

  upload_file-Sends :
      (id : Bytes) (file : JobFile) → Sends (IsUse api_key id) (upload_file answer api_key id file)
  unfolding upload_file
  upload_file-Sends id file =
      >>=-Sends (IsUse api_key id) (ensure_parent_dir answer api_key id (folder_of file.path))
        (λ passed.
          request answer api_key
            (upload id (urlencode file.path) (file_name_of file.path) file.content) ok_or_err)
        (ensure_parent_dir-Sends id (folder_of file.path))
        (λ passed. uses_sandbox id _ ok_or_err (uploads _ _ _))

  execute_command-Sends :
      (id : Bytes) (env : List (Bytes × Bytes)) (timeout : ℕ) (command : Bytes)
      → Sends (IsUse api_key id) (execute_command answer api_key id env timeout command)
  unfolding execute_command
  execute_command-Sends id env timeout command =
      uses_sandbox id (execute_process id (full_command command env) timeout) execute_reply
        (executes _ _)

  run_on_sandbox-Sends :
      (clock : List Call → ℕ) (fuel : ℕ) (id : Bytes) (spec : JobSpec) (timeout : ℕ)
      → Sends (IsUse api_key id) (run_on_sandbox answer api_key clock fuel id spec timeout)
  unfolding run_on_sandbox
  run_on_sandbox-Sends clock fuel id spec timeout =
      let write : JobFile → Run Call ComputeError (Unit {0}) = upload_file answer api_key id in
      let run : Bytes → Run Call ComputeError (ℤ × Bytes) =
        execute_command answer api_key id spec.env timeout in
      >>=-Sends (IsUse api_key id) (wait_started answer api_key clock fuel id)
        (λ passed. place_files write spec.files >> run_commands run spec.commands [])
        (wait_started-Sends clock fuel id)
        (λ passed.
          >>=-Sends (IsUse api_key id) (place_files write spec.files)
            (λ placed. run_commands run spec.commands [])
            (place_files-Sends (IsUse api_key id) write spec.files (upload_file-Sends id))
            (λ placed.
              run_commands-Sends (IsUse api_key id) run spec.commands []
                (execute_command-Sends id spec.env timeout)))

  last_delete :
      {A B : Type 0} (work : Run Call ComputeError A) (id : Bytes) (f : A → B) (now : List Call)
      → ((then_delete work
              (λ sent. sent ++ record { api_key = api_key; action = delete_sandbox id } ∷ [])
            >>= λ out. pure (f out))
          now).1
        ≡ (work now).1 ++ record { api_key = api_key; action = delete_sandbox id } ∷ []
  unfolding then_delete
  last_delete {A = A} {B = B} work id f now = of_result (work now).0 (work now).1
    where
      of_result :
          (result : Result ComputeError A) (later : List Call)
          → (continue
              (λ out. pure (f out))
              (result, later ++ record { api_key = api_key; action = delete_sandbox id } ∷ [])).1
            ≡ later ++ record { api_key = api_key; action = delete_sandbox id } ∷ []
      of_result (ok a) later = refl
      of_result (err e) later = refl

  in_sandbox-IsFreed :
      (clock : List Call → ℕ) (fuel : ℕ) (config : DaytonaConfig) (spec : JobSpec)
      (sent : List Call) (step : Result ComputeError Bytes × List Call)
      → step.1
        ≡ sent
          ++ record {
            api_key = api_key;
            action = create_sandbox (snapshot_of config spec.snapshot) (target_of config);
          }
            ∷ []
      → IsFreed sent
          (continue
            (λ id.
              then_delete
                (run_on_sandbox answer api_key clock fuel id spec
                  (command_timeout spec.timeout_secs))
                (λ sent. sent ++ record { api_key = api_key; action = delete_sandbox id } ∷ [])
              >>= λ out. pure (sandbox_result id out))
            step).1
  in_sandbox-IsFreed clock fuel config spec sent (err e, now) h =
      subst (IsFreed sent) (sym h)
        (refused api_key (snapshot_of config spec.snapshot) (target_of config))
  in_sandbox-IsFreed clock fuel config spec sent (ok id, now) h =
      let timeout = command_timeout spec.timeout_secs in
      let work : Run Call ComputeError (ℤ × Bytes) =
        run_on_sandbox answer api_key clock fuel id spec timeout in
      let (added, e, all) = run_on_sandbox-Sends clock fuel id spec timeout now in
      subst (IsFreed sent)
        (sym (
          last_delete work id (sandbox_result id) now
          ∙ ap (λ x. x ++ record { api_key = api_key; action = delete_sandbox id } ∷ [])
              (e ∙ ap (λ x. x ++ added) h)))
        (freed api_key id (snapshot_of config spec.snapshot) (target_of config) added all)

  run_in_sandbox-IsFreed :
      (clock : List Call → ℕ) (fuel : ℕ) (config : DaytonaConfig) (spec : JobSpec)
      (sent : List Call)
      → IsFreed sent (run_in_sandbox answer api_key clock fuel config spec sent).1
  unfolding run_in_sandbox request
  run_in_sandbox-IsFreed clock fuel config spec sent =
      in_sandbox-IsFreed clock fuel config spec sent
        (request answer api_key
          (create_sandbox (snapshot_of config spec.snapshot) (target_of config)) create_reply sent)
        refl

module _ (answer : List Call → Call → Answer) (clock : List Call → ℕ) (trim : Bytes → Bytes) where
  keyed-IsFreed :
      (fuel : ℕ) (config : DaytonaConfig) (spec : JobSpec) (sent : List Call)
      (key : Result ComputeError Bytes)
      → IsFreed sent
          (continue (λ api_key. run_in_sandbox answer api_key clock fuel config spec) (key, sent)).1
  keyed-IsFreed fuel config spec sent (ok key) =
      run_in_sandbox-IsFreed answer key clock fuel config spec sent
  keyed-IsFreed fuel config spec sent (err e) = unsent

  -- Whatever Daytona answers, a job sends nothing, or only the request for a sandbox, or that
  -- request, then requests that use the sandbox, and last the one that deletes it, all with one key.
  pub run_daytona_job-IsFreed :
      (fuel : ℕ) (config : DaytonaConfig) (spec : JobSpec) (sent : List Call)
      → IsFreed sent (run_daytona_job answer clock trim fuel config spec sent).1
  unfolding run_daytona_job if_commands
  run_daytona_job-IsFreed fuel config spec sent = of_commands spec.commands
    where
      of_commands :
          (commands : List Bytes)
          → IsFreed sent
              (if_commands commands
                (lift (daytona_key trim config.configured_key spec) >>= λ api_key.
                  run_in_sandbox answer api_key clock fuel config spec)
                sent).1
      of_commands [] = unsent
      of_commands (c ∷ cs) =
          keyed-IsFreed fuel config spec sent (daytona_key trim config.configured_key spec)
