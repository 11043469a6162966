-- ===== src/Compute/Box.antt =====
-- crates/clotho-compute/src/box_provider.rs: a job in a box. Parameters are the service's answers,
-- of which the fields are kept that the code reads, and the clock, in milliseconds.
use clotho.Prelude.{
  ℕ, ◌+◌, ◌*◌, Bool, true, false, not, ◌&&◌, ◌||◌, Option, none, some, List, [], ◌∷◌, ◌++◌, all,
  length, leb, ◌==◌, min, if◌then◌else◌,
}
use clotho.Prelude.Bytes.{
  Bytes, lit, beq, is_empty, strip_prefix, is_alphanumeric, is_lower, is_upper,
}
use clotho.Prelude.Results.{Result, ok, err}
use clotho.Prelude.Int.{ℤ, negsuc}
use clotho.Compute.{ComputeError, disabled, provider_failed, JobFile, JobSpec, JobResult}
use clotho.Compute.Calls.{Run, pure, ◌>>=◌, ◌>>◌, lift}
use clotho.Compute.Jobs.{
  is_success, ends_line, is_zero, as_i32, exports, Polled, pending, ready, broken, wait_from,
  place_files, run_commands, then_delete, if_commands,
}
use clotho.Compute.Base64.{base64_encode}

-- The requests, and the sleep between two polls.
pub data Action : Type 0 where
  create_box : (ttl : Option ℕ) → (env : List (Bytes × Bytes)) → Action
  get_box delete_box : (id : Bytes) → Action
  put_file : (id path content : Bytes) → Action
  run_command : (id command : Bytes) → (timeout : ℕ) → Action
  sleep : Action

pub record Call : Type 0 where
  pub api_key : Bytes
  pub action : Action

-- The JSON of an answer.
pub record Value : Type 0 where
  pub ok_flag : Option Bool
  pub box_id : Option Bytes
  pub id : Option Bytes
  pub box_state : Option Bytes
  pub exit_code : Option ℤ
  pub stdout : Option Bytes
  pub stderr : Option Bytes
  pub timed_out : Option Bool

pub data Text : Type 0 where
  unreadable bad_json : Text
  value : Value → Text

pub data Answer : Type 0 where
  no_answer : Answer
  answered : (status : ℕ) → Text → Answer

is_refused : Option Bool → Bool
is_refused (some false) = true
is_refused _ = false

refused_value : Value → Result ComputeError Value
unfolding is_refused
refused_value v = if is_refused v.ok_flag then err (provider_failed "box refused") else ok v

json_text : (success : Bool) → Text → Result ComputeError Value
unfolding refused_value
json_text success unreadable = err (provider_failed "box text")
json_text false text = err (provider_failed "box status")
json_text true bad_json = err (provider_failed "box bad JSON")
json_text true (value v) = refused_value v

unfoldable pub json_or_err : Answer → Result ComputeError Value
unfolding json_text is_success
json_or_err no_answer = err (provider_failed "box request")
json_or_err (answered status text) = json_text (is_success status) text

ok_value : Value → Result ComputeError (Unit {0})
unfolding is_refused
ok_value v = if is_refused v.ok_flag then err (provider_failed "box refused") else ok tt

unfoldable pub from_json :
    {A : Type 0}
    → Result ComputeError Value
    → (Value → Result ComputeError A)
    → Result ComputeError A
from_json (ok v) read = read v
from_json (err e) read = err e

ok_text : (success : Bool) → Text → Result ComputeError (Unit {0})
unfolding ok_value
ok_text false text = err (provider_failed "box status")
ok_text true (value v) = ok_value v
ok_text true _ = ok tt

unfoldable pub ok_or_err : Answer → Result ComputeError (Unit {0})
unfolding ok_text is_success
ok_or_err no_answer = err (provider_failed "box request")
ok_or_err (answered status text) = ok_text (is_success status) text

unfoldable pub or_field : Option Bytes → Bytes
or_field (some text) = text
or_field none = []

unfoldable pub is_safe_env_key : Bytes → Bool
is_safe_env_key [] = false
is_safe_env_key (c ∷ cs) =
    (is_lower c || is_upper c || c == b'_')
    && (all (λ x. is_alphanumeric x || x == b'_') cs && leb (length (c ∷ cs)) 128)

unfoldable pub safe_env : List (Bytes × Bytes) → List (Bytes × Bytes)
unfolding is_safe_env_key
safe_env [] = []
safe_env ((k, v) ∷ env) =
    let rest = safe_env env in if is_safe_env_key k then (k, v) ∷ rest else rest

-- `trim_start_matches('/')`
unfoldable pub without_slashes : Bytes → Bytes
without_slashes [] = []
without_slashes (c ∷ cs) = if c == b'/' then without_slashes cs else c ∷ cs

-- What follows the first of the prefixes that the path has.
unfoldable pub strip_first : (prefixes : List Bytes) → Bytes → Bytes
strip_first [] p = p
strip_first (prefix ∷ prefixes) p = elim (strip_prefix prefix p) [
  | some rest ↦ rest
  | none ↦ strip_first prefixes p
]

unfoldable pub relative_path : Bytes → Bytes
unfolding without_slashes strip_first
relative_path path =
    strip_first
      (lit "tmp/clotho-ci/" ∷ lit "tmp/" ∷ lit "workspace/" ∷ lit "home/user/" ∷ lit "home/" ∷ [])
      (without_slashes path)

-- `rsplit_once('/')`: what is before the last slash, or "/" without one.
before_last : Bytes → Option Bytes
before_last [] = none
before_last (c ∷ cs) = elim (before_last cs) [
  | some before ↦ some (c ∷ before)
  | none ↦ if c == b'/' then some [] else none
]

unfoldable pub parent_of : Bytes → Bytes
unfolding before_last
parent_of path = elim (before_last path) [ some parent ↦ parent | none ↦ lit "/" ]

unfoldable pub is_absolute : Bytes → Bool
is_absolute [] = false
is_absolute (c ∷ cs) = c == b'/'

unfoldable pub stage_command : (rel path : Bytes) → Bytes
unfolding parent_of
stage_command rel path =
    lit "mkdir -p '"
    ++ parent_of path
    ++ lit "' && cp -f -- '"
    ++ rel
    ++ lit "' '"
    ++ path
    ++ lit "'"

unfoldable pub cmd_timeout_max : ℕ
cmd_timeout_max = 60

-- `clamp(1, BOX_CMD_TIMEOUT_MAX)`
unfoldable pub clamped : ℕ → ℕ
unfolding cmd_timeout_max
clamped n = if leb n 1 then 1 else min n cmd_timeout_max

unfoldable pub full_command : (command : Bytes) → List (Bytes × Bytes) → Bytes
unfolding exports
full_command command [] = command
full_command command (e ∷ env) = exports (e ∷ env) ++ command

-- `text` on a new line after `output`.
unfoldable pub on_new_line : (output text : Bytes) → Bytes
unfolding ends_line
on_new_line [] text = text
on_new_line (c ∷ cs) text = if ends_line (c ∷ cs) then (c ∷ cs) ++ text else (c ∷ cs) ++ 10 ∷ text

unfoldable pub with_stderr : (output stderr : Bytes) → Bytes
unfolding on_new_line
with_stderr output [] = output
with_stderr output (c ∷ cs) = on_new_line output (c ∷ cs)

-- `notice` is the text for a time-out, which the code formats.
unfoldable pub with_notice : (notice output : Bytes) → Option Bool → Bytes
unfolding on_new_line
with_notice notice output (some true) = on_new_line output notice
with_notice notice output _ = output

unfoldable pub exit_code_of : Option ℤ → ℤ
unfolding as_i32
exit_code_of (some code) = as_i32 code
exit_code_of none = as_i32 (negsuc 0)

-- The credential of a job, trimmed, or else the configured one; `trim` is Rust's.
unfoldable pub job_key : (trim : Bytes → Bytes) → List (Bytes × Bytes) → Bytes
job_key trim [] = []
job_key trim ((name, key) ∷ credentials) =
    let rest = job_key trim credentials in if beq name (lit "api_key") then trim key else rest

unfoldable pub resolve_api_key :
    (trim : Bytes → Bytes) → (configured : Bytes) → JobSpec → Result ComputeError Bytes
unfolding job_key
resolve_api_key trim configured spec =
    if not (is_empty (job_key trim spec.provider_credentials))
    then ok (job_key trim spec.provider_credentials)
    else if not (is_empty configured)
    then ok configured
    else err (disabled "Box is not connected")

pub record BoxConfig : Type 0 where
  pub configured_key : Bytes
  pub default_ttl_secs : Option ℕ

unfoldable pub created : Value → Result ComputeError Bytes
created v = elim v.box_id [
  | some id ↦ ok id
  | none ↦ elim v.id [
    | some id ↦ ok id
    | none ↦ err (provider_failed "create box: no box.id in response")
  ]
]

-- `match state` of the loop.
unfoldable pub polled : (state : Bytes) → Polled
polled state =
    if beq state (lit "ready") || beq state (lit "idle")
    then ready
    else if beq state (lit "error")
    then broken (provider_failed "box entered state error")
    else if beq state (lit "archived") || beq state (lit "archiving")
    then broken (provider_failed "box archived before ready")
    else pending

unfoldable pub poll_reply : Answer → Result ComputeError Polled
unfolding from_json json_or_err polled or_field
poll_reply reply = from_json (json_or_err reply) (λ v. ok (polled (or_field v.box_state)))

unfoldable pub ready_timeout : ℕ
ready_timeout = 300 * 1000

unfoldable pub staged : ℤ × Bytes → Result ComputeError (Unit {0})
unfolding is_zero
staged (code, out) = if is_zero code then ok tt else err (provider_failed "box stage file")

unfoldable pub job_timeout : (timeout_secs : ℕ) → ℕ
unfolding cmd_timeout_max
job_timeout timeout_secs = if timeout_secs == 0 then 60 else min timeout_secs cmd_timeout_max

unfoldable pub job_result : (id : Bytes) → ℤ × Bytes → JobResult
job_result id (code, logs) = record {
  exit_code = code;
  logs = logs;
  provider = lit "box";
  sandbox_id = id;
}

module _ (answer : List Call → Call → Answer) (clock : List Call → ℕ)
    (notice : (timeout : ℕ) → Bytes) (api_key : Bytes) where
  -- A request, and what its answer is read as.
  unfoldable pub request :
      {A : Type 0} → Action → (Answer → Result ComputeError A) → Run Call ComputeError A
  request action read sent =
      let call : Call = record { api_key = api_key; action = action } in
      (read (answer sent call), sent ++ call ∷ [])

  unfoldable pub create : Option ℕ → (env : List (Bytes × Bytes)) → Run Call ComputeError Bytes
  unfolding request from_json json_or_err created safe_env
  create ttl env =
      request (create_box ttl (safe_env env)) (λ reply. from_json (json_or_err reply) created)

  unfoldable pub poll : (id : Bytes) → Run Call ComputeError Polled
  unfolding request poll_reply
  poll id = request (get_box id) poll_reply

  unfoldable pub pause : Run Call ComputeError (Unit {0})
  unfolding request
  pause = request sleep (λ reply. ok tt)

  -- The deadline is read before the first poll.
  unfoldable pub wait_ready : (fuel : ℕ) → (id : Bytes) → Run Call ComputeError (Unit {0})
  unfolding poll pause ready_timeout wait_from
  wait_ready fuel id sent =
      wait_from clock (poll id) pause (provider_failed "box not ready") (clock sent + ready_timeout)
        fuel sent

  unfoldable pub output_of : (timeout : ℕ) → Value → ℤ × Bytes
  unfolding exit_code_of with_notice with_stderr or_field
  output_of timeout v = (
    exit_code_of v.exit_code,
    with_notice (notice timeout) (with_stderr (or_field v.stdout) (or_field v.stderr)) v.timed_out,
  )

  unfoldable pub execute_reply : (timeout : ℕ) → Answer → Result ComputeError (ℤ × Bytes)
  unfolding from_json json_or_err output_of
  execute_reply timeout reply = from_json (json_or_err reply) (λ v. ok (output_of timeout v))

  unfoldable pub execute :
      (id : Bytes)
      → (env : List (Bytes × Bytes)) → (timeout_secs : ℕ) → (command : Bytes)
      → Run Call ComputeError (ℤ × Bytes)
  unfolding request full_command clamped execute_reply
  execute id env timeout_secs command =
      request (run_command id (full_command command env) (clamped timeout_secs))
        (execute_reply (clamped timeout_secs))

  -- A file of an absolute path is copied into its place.
  unfoldable pub stage : (id rel path : Bytes) → Run Call ComputeError (Unit {0})
  unfolding execute stage_command staged is_absolute
  stage id rel path =
      if is_absolute path && not (beq path rel)
      then (execute id [] 30 (stage_command rel path) >>= λ out. lift (staged out))
      else pure tt

  unfoldable pub write_file : (id : Bytes) → JobFile → Run Call ComputeError (Unit {0})
  unfolding request ok_or_err relative_path stage base64_encode
  write_file id file =
      request (put_file id (relative_path file.path) (base64_encode file.content)) ok_or_err
      >> stage id (relative_path file.path) file.path

  unfoldable pub run_on_box :
      (fuel : ℕ) → (id : Bytes) → JobSpec → (timeout : ℕ) → Run Call ComputeError (ℤ × Bytes)
  unfolding wait_ready write_file execute place_files run_commands
  run_on_box fuel id spec timeout = do
    wait_ready fuel id
    place_files (write_file id) spec.files
    run_commands (execute id spec.env timeout) spec.commands []

  -- Whatever the answer is.
  unfoldable pub delete : (id : Bytes) → List Call → List Call
  delete id sent = sent ++ record { api_key = api_key; action = delete_box id } ∷ []

  -- From the creation of the box on.
  unfoldable pub run_in_box : (fuel : ℕ) → BoxConfig → JobSpec → Run Call ComputeError JobResult
  unfolding create run_on_box then_delete delete job_timeout job_result
  run_in_box fuel config spec = create config.default_ttl_secs spec.env >>= λ id.
      then_delete (run_on_box fuel id spec (job_timeout spec.timeout_secs)) (delete id) >>= λ out.
      pure (job_result id out)

module _ (answer : List Call → Call → Answer) (clock : List Call → ℕ)
    (notice : (timeout : ℕ) → Bytes) (trim : Bytes → Bytes) where
  unfoldable pub run_box_job : (fuel : ℕ) → BoxConfig → JobSpec → Run Call ComputeError JobResult
  unfolding resolve_api_key run_in_box if_commands
  run_box_job fuel config spec = if_commands spec.commands (
      lift (resolve_api_key trim config.configured_key spec) >>= λ api_key.
      run_in_box answer clock notice api_key fuel config spec)
