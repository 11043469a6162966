-- ===== src/Compute/SandboxTests.antt =====
-- A job in a Daytona sandbox that answers each request alike.
use clotho.Prelude.{ℕ, ◌*◌, ◌≡◌, refl, none, some, List, [], ◌∷◌, length, map}
use clotho.Prelude.Bytes.{lit, is_alphanumeric, text_code}
use clotho.Prelude.Int.{pos}
use clotho.Compute.{JobFile, JobSpec}
use clotho.Compute.Jobs.{
  is_success, wait_from, after_poll, place_files, run_commands, after_command, is_zero,
  with_line_end, ends_line, then_delete, if_commands, as_i32,
}
use clotho.Compute.Box.{job_key, full_command, exit_code_of}
use clotho.Compute.Daytona.{
  create_sandbox, get_sandbox, delete_sandbox, make_folder, upload, execute_process, Call, Answer,
  answered, value, DaytonaConfig, daytona_key, run_in_sandbox, run_daytona_job, request,
  wait_started, upload_file, execute_command, run_on_sandbox, start_timeout, json_or_err, from_json,
  start_reply, create_reply, execute_reply, ok_or_err, folder_of, file_name_of, ensure_parent_dir,
  urlencode, snapshot_of, target_of, command_timeout, sandbox_result,
}
use clotho.Compute.SandboxJobs.{IsFreed, run_daytona_job-IsFreed}

sandbox_code : Unit {0}
unfolding run_daytona_job run_in_sandbox run_on_sandbox wait_started upload_file execute_command
    ensure_parent_dir request start_reply create_reply execute_reply ok_or_err json_or_err from_json
    folder_of file_name_of urlencode snapshot_of target_of command_timeout sandbox_result
    daytona_key job_key full_command exit_code_of as_i32 is_success wait_from after_poll place_files
    run_commands after_command is_zero with_line_end ends_line then_delete if_commands start_timeout
    is_alphanumeric text_code
sandbox_code = tt

-- The sandbox has started, and its commands exit with 1.
abbrev always : List Call → Call → Answer
unfolding lit
always sent call = answered 200 (
    value (record {
      id = some (lit "s1");
      state = some (lit "started");
      exit_code = some (pos 1);
      result = some (some (lit "no"));
      output = none;
    }))

abbrev seconds : List Call → ℕ
seconds sent = 2000 * length sent

abbrev script : JobFile
unfolding lit
script = record { path = lit "ci/run.sh"; content = lit "x" }

abbrev job : JobSpec
unfolding lit
job = record {
  label = [];
  snapshot = [];
  files = script ∷ [];
  commands = lit "false" ∷ lit "true" ∷ [];
  env = [];
  timeout_secs = 0;
  provider_id = [];
  provider_credentials = (lit "api_key", lit "k") ∷ [];
}

abbrev config : DaytonaConfig
unfolding lit
config = record { configured_key = []; default_snapshot = lit "small"; target = [] }

sent_by_job :
    map (λ (call : Call). call.action) (run_daytona_job always seconds (λ x. x) 91 config job []).1
    ≡ create_sandbox (lit "small") none
      ∷ get_sandbox (lit "s1")
      ∷ make_folder (lit "s1") (lit "ci")
      ∷ upload (lit "s1") (lit "ci/run.sh") (lit "run.sh") (lit "x")
      ∷ execute_process (lit "s1") (lit "false") 900
      ∷ delete_sandbox (lit "s1")
      ∷ []
unfolding sandbox_code
sent_by_job = refl

run_daytona_job-IsFreed_example :
    IsFreed [] (run_daytona_job always seconds (λ x. x) 91 config job []).1
run_daytona_job-IsFreed_example = run_daytona_job-IsFreed always seconds (λ x. x) 91 config job []
