-- ===== src/Compute/Tests.antt =====
-- Jobs and providers at concrete inputs.
use clotho.Prelude.{
  suc, ℕ, ◌+◌, ◌*◌, ◌≡◌, refl, true, none, some, List, [], ◌∷◌, ◌++◌, length, arith,
}
use clotho.Prelude.Bytes.{Bytes, lit, text_code}
use clotho.Prelude.Results.{ok}
use clotho.Prelude.Int.{ℤ, pos}
use clotho.Compute.{
  ComputeError, ComputeProvider, ProviderRegistry, disabled_with_id, daytona_capabilities, JobSpec,
  first_where, supports_jobs, provider_by_id, resolve, direct, feature_tags, tag, list_tag,
}
use clotho.Compute.Calls.{Run, lift}
use clotho.Compute.Jobs.{
  after_command, run_commands, is_zero, with_line_end, ends_line, if_commands, wait_from,
  after_poll, place_files, then_delete, is_success, as_i32,
}
use clotho.Compute.Base64.{base64_encode, read_base64, read_base64-encode, digit_of}
use clotho.Compute.Box.{
  Call, Answer, answered, value, sleep, BoxConfig, run_box_job, run_in_box, resolve_api_key,
  job_key, create, created, request, json_or_err, from_json, poll, poll_reply, polled, or_field,
  pause, wait_ready, ready_timeout, output_of, execute, execute_reply, run_on_box, write_file,
  delete, job_timeout, job_result, safe_env, full_command, clamped, cmd_timeout_max, exit_code_of,
  with_notice, with_stderr, on_new_line, relative_path, without_slashes, strip_first,
  is_safe_env_key,
}
use clotho.Compute.BoxJobs.{IsTornDown, run_box_job-IsTornDown, IsClock, run_box_job_enough}
use clotho.Compute.Stopping.{Ran, run_commands-Ran}
use clotho.Compute.Routing.{IsChosen, resolve-IsChosen}
use clotho.Compute.Daytona.{urlencode}

job_code : Unit {0}
unfolding run_box_job run_in_box resolve_api_key job_key create created request json_or_err
    from_json poll poll_reply polled or_field pause wait_ready ready_timeout output_of execute
    execute_reply run_on_box write_file delete job_timeout job_result safe_env full_command clamped
    cmd_timeout_max exit_code_of with_notice with_stderr on_new_line after_command run_commands
    is_zero with_line_end ends_line if_commands wait_from after_poll place_files then_delete
    is_success as_i32 text_code is_safe_env_key
job_code = tt

encoded : base64_encode (lit "Ma") ≡ lit "TWE="
unfolding base64_encode digit_of text_code
encoded = refl

staged_path : relative_path (lit "/tmp/clotho-ci/repo.tar") ≡ lit "repo.tar"
unfolding relative_path without_slashes strip_first text_code
staged_path = refl

unsafe_keys : safe_env ((lit "PATH", []) ∷ (lit "1X", []) ∷ []) ≡ (lit "PATH", []) ∷ []
unfolding job_code
unsafe_keys = refl

percent : urlencode (lit "a b/c") ≡ lit "a%20b/c"
unfolding urlencode text_code
percent = refl

tags :
    feature_tags daytona_capabilities
    ≡ lit "one-shot-jobs" ∷ lit "persistent-workspaces" ∷ lit "snapshots" ∷ lit "file-api" ∷ []
unfolding feature_tags daytona_capabilities tag list_tag text_code
tags = refl

-- A service that answers each request with the same box, whose commands exit with 1.
abbrev always : List Call → Call → Answer
unfolding lit
always sent call = answered 200 (
    value (record {
      ok_flag = some true;
      box_id = some (lit "b1");
      id = none;
      box_state = some (lit "ready");
      exit_code = some (pos 1);
      stdout = some (lit "no");
      stderr = none;
      timed_out = none;
    }))

-- Two seconds for each request.
abbrev seconds : List Call → ℕ
seconds sent = 2000 * length sent

abbrev two_commands : JobSpec
unfolding lit
two_commands = record {
  label = [];
  snapshot = [];
  files = [];
  commands = lit "false" ∷ lit "true" ∷ [];
  env = [];
  timeout_secs = 0;
  provider_id = [];
  provider_credentials = (lit "api_key", lit "k") ∷ [];
}

abbrev no_config : BoxConfig
no_config = record { configured_key = []; default_ttl_secs = none }

stops :
    (run_box_job always seconds (λ timeout. []) (λ x. x) 151 no_config two_commands []).0
    ≡ ok (record {
      exit_code = pos 1;
      logs = lit "no" ++ 10 ∷ [];
      provider = lit "box";
      sandbox_id = lit "b1";
    })
unfolding job_code
stops = refl

run_box_job-IsTornDown_example :
    IsTornDown []
      (run_box_job always seconds (λ timeout. []) (λ x. x) 151 no_config two_commands []).1
run_box_job-IsTornDown_example =
    run_box_job-IsTornDown always seconds (λ timeout. []) (λ x. x) 151 no_config two_commands []

length_snoc : (sent : List Call) (call : Call) → length (sent ++ call ∷ []) ≡ 1 + length sent
length_snoc [] call = omega arith
length_snoc (x ∷ xs) call = omega (arith, length_snoc xs call)

seconds-IsClock : IsClock seconds
seconds-IsClock = record {
  forward = λ sent call. omega (arith, length_snoc sent call);
  sleeps_on = λ sent api_key.
      omega (arith, length_snoc sent (record { api_key = api_key; action = sleep }));
}

run_box_job_enough_example :
    run_box_job always seconds (λ timeout. []) (λ x. x) (suc (9 + 150)) no_config two_commands []
    ≡ run_box_job always seconds (λ timeout. []) (λ x. x) 151 no_config two_commands []
run_box_job_enough_example =
    run_box_job_enough always seconds (λ timeout. []) seconds-IsClock (λ x. x) no_config
      two_commands 9 []

abbrev echo : Bytes → Run Call ComputeError (ℤ × Bytes)
echo command = lift (ok (pos 0, command))

echoed : run_commands echo (lit "a" ∷ []) [] [] ≡ (ok (pos 0, lit "a" ++ 10 ∷ []), [])
unfolding job_code
echoed = refl

run_commands-Ran_example :
    (written : Bytes) × (lit "a" ++ 10 ∷ [] ≡ written)
    × Ran echo (lit "a" ∷ []) [] (pos 0) written []
run_commands-Ran_example =
    run_commands-Ran echo (lit "a" ∷ []) [] [] [] (pos 0) (lit "a" ++ 10 ∷ []) echoed

read_base64-encode_example :
    read_base64 (base64_encode (255 ∷ 0 ∷ 7 ∷ 9 ∷ [])) ≡ 255 ∷ 0 ∷ 7 ∷ 9 ∷ []
read_base64-encode_example =
    read_base64-encode (255 ∷ 0 ∷ 7 ∷ 9 ∷ [])
      (omega arith, (omega arith, (omega arith, (omega arith, tt))))

abbrev unset : ComputeProvider (Unit {0})
unfolding lit
unset = disabled_with_id (λ e. tt) (lit "daytona") "no key" []

abbrev box : ComputeProvider (Unit {0})
unfolding lit
box = record {
  provider_name = lit "box";
  descriptor = record {
    id = lit "box";
    name = lit "Box";
    kind = direct;
    configured = true;
    configured_reason = [];
    capabilities = daytona_capabilities;
    default_snapshot = [];
    notes = [];
  };
  run_job = λ spec. tt;
}

abbrev registry : ProviderRegistry (Unit {0})
unfolding lit
registry = record { providers = unset ∷ box ∷ []; default_id = lit "daytona" }

can_run : first_where supports_jobs registry.providers ≡ some box
unfolding first_where supports_jobs disabled_with_id daytona_capabilities text_code
can_run = refl

resolve-IsChosen_example :
    (p : ComputeProvider (Unit {0})) × (resolve (λ x. x) registry [] ≡ ok p)
    × (supports_jobs p ≡ true)
    × IsChosen (provider_by_id (λ x. x) registry registry.default_id) p
resolve-IsChosen_example = resolve-IsChosen registry (λ x. x) box can_run
