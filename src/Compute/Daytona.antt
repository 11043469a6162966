-- ===== src/Compute/Daytona.antt =====
-- crates/clotho-compute/src/daytona.rs: a job in a Daytona sandbox. Parameters are the service's
-- answers and the clock, as for boxes. A job with another key than the configured one runs on a copy
-- of the provider with that key, so the key is what a request carries.
use clotho.Prelude.{
  ℕ, ◌+◌, ◌*◌, ◌/◌, ◌%◌, Bool, true, false, not, ◌||◌, Option, none, some, List, [], ◌∷◌, ◌++◌, leb,
  ◌==◌, if◌then◌else◌,
}
use clotho.Prelude.Bytes.{Bytes, lit, beq, is_empty, is_alphanumeric}
use clotho.Prelude.Results.{Result, ok, err}
use clotho.Prelude.Int.{ℤ}
use clotho.Compute.{ComputeError, disabled, provider_failed, JobFile, JobSpec, JobResult}
use clotho.Compute.Calls.{Run, pure, ◌>>=◌, ◌>>◌, lift}
use clotho.Compute.Jobs.{
  is_success, Polled, pending, ready, broken, wait_from, place_files, run_commands, then_delete,
  if_commands,
}
use clotho.Compute.Box.{full_command, exit_code_of, job_key}

upper_digit : ℕ → ℕ
upper_digit n = if leb n 9 then n + b'0' else n + 55

is_unreserved : ℕ → Bool
is_unreserved b =
    is_alphanumeric b || (b == b'-' || (b == b'_' || (b == b'.' || (b == b'~' || b == b'/'))))

unfoldable pub urlencode : Bytes → Bytes
unfolding upper_digit is_unreserved
urlencode [] = []
urlencode (b ∷ bs) =
    let rest = urlencode bs in
    if is_unreserved b then b ∷ rest else b'%' ∷ upper_digit (b / 16) ∷ upper_digit (b % 16) ∷ rest

pub data Action : Type 0 where
  create_sandbox : (snapshot : Bytes) → (target : Option Bytes) → Action
  get_sandbox delete_sandbox : (id : Bytes) → Action
  make_folder : (id path : Bytes) → Action
  upload : (id path file_name content : Bytes) → Action
  execute_process : (id command : Bytes) → (timeout : ℕ) → Action
  sleep : Action

pub record Call : Type 0 where
  pub api_key : Bytes
  pub action : Action

-- The fields of a JSON value that are read, as texts and numbers. `result` is also told apart from a
-- field that is there and is no text.
pub record Value : Type 0 where
  pub id : Option Bytes
  pub state : Option Bytes
  pub exit_code : Option ℤ
  pub result : Option (Option Bytes)
  pub output : Option Bytes

pub data Text : Type 0 where
  unreadable bad_json : Text
  value : Value → Text

pub data Answer : Type 0 where
  no_answer : Answer
  answered : (status : ℕ) → Text → Answer

json_text : (success : Bool) → Text → Result ComputeError Value
json_text success unreadable = err (provider_failed "daytona text")
json_text false text = err (provider_failed "daytona status")
json_text true bad_json = err (provider_failed "daytona bad JSON")
json_text true (value v) = ok v

unfoldable pub json_or_err : Answer → Result ComputeError Value
unfolding json_text is_success
json_or_err no_answer = err (provider_failed "daytona request")
json_or_err (answered status text) = json_text (is_success status) text

unfoldable pub ok_or_err : Answer → Result ComputeError (Unit {0})
unfolding is_success
ok_or_err no_answer = err (provider_failed "daytona request")
ok_or_err (answered status text) =
    if is_success status then ok tt else err (provider_failed "daytona status")

unfoldable pub from_json :
    {A : Type 0}
    → Result ComputeError Value
    → (Value → Result ComputeError A)
    → Result ComputeError A
from_json (ok v) read = read v
from_json (err e) read = err e

or_field : Option Bytes → Bytes
or_field (some text) = text
or_field none = []

-- `match state` of the loop.
started : (state : Bytes) → Polled
started state =
    if beq state (lit "started")
    then ready
    else if beq state (lit "error")
        || beq state (lit "build_failed")
        || (beq state (lit "destroyed") || beq state (lit "destroying"))
    then broken (provider_failed "sandbox entered state")
    else pending

unfoldable pub start_reply : Answer → Result ComputeError Polled
unfolding from_json json_or_err started or_field
start_reply reply = from_json (json_or_err reply) (λ v. ok (started (or_field v.state)))

unfoldable pub create_reply : Answer → Result ComputeError Bytes
unfolding from_json json_or_err
create_reply reply = from_json (json_or_err reply) (λ v. elim v.id [
  | some id ↦ ok id
  | none ↦ err (provider_failed "create sandbox: no id in response")
])

-- `result`, or `output` where there is no such field.
output_text : Value → Bytes
unfolding or_field
output_text v = elim v.result [ some text ↦ or_field text | none ↦ or_field v.output ]

unfoldable pub execute_reply : Answer → Result ComputeError (ℤ × Bytes)
unfolding from_json json_or_err exit_code_of output_text
execute_reply reply =
    from_json (json_or_err reply) (λ v. ok (exit_code_of v.exit_code, output_text v))

-- `rsplit_once('/')`: the parts before and after the last slash.
split_last : Bytes → Option (Bytes × Bytes)
split_last [] = none
split_last (c ∷ cs) = elim (split_last cs) [
  | some (before, after) ↦ some (c ∷ before, after)
  | none ↦ if c == b'/' then some ([], cs) else none
]

-- The folder to make, if the path names one.
unfoldable pub folder_of : Bytes → Option Bytes
unfolding split_last
folder_of path = elim (split_last path) [
  | some (before, after) ↦ if is_empty before then none else some before
  | none ↦ none
]

unfoldable pub file_name_of : Bytes → Bytes
unfolding split_last
file_name_of path = elim (split_last path) [ some (before, after) ↦ after | none ↦ path ]

pub record DaytonaConfig : Type 0 where
  pub configured_key : Bytes
  pub default_snapshot : Bytes
  pub target : Bytes

unfoldable pub target_of : DaytonaConfig → Option Bytes
target_of config = if is_empty config.target then none else some config.target

unfoldable pub snapshot_of : DaytonaConfig → (snapshot : Bytes) → Bytes
snapshot_of config snapshot = if is_empty snapshot then config.default_snapshot else snapshot

unfoldable pub command_timeout : (timeout_secs : ℕ) → ℕ
command_timeout timeout_secs = if timeout_secs == 0 then 900 else timeout_secs

unfoldable pub daytona_key :
    (trim : Bytes → Bytes) → (configured : Bytes) → JobSpec → Result ComputeError Bytes
unfolding job_key
daytona_key trim configured spec =
    if not (is_empty (job_key trim spec.provider_credentials))
    then ok (job_key trim spec.provider_credentials)
    else if not (is_empty configured)
    then ok configured
    else err (disabled "Daytona is not connected")

unfoldable pub start_timeout : ℕ
start_timeout = 180 * 1000

unfoldable pub sandbox_result : (id : Bytes) → ℤ × Bytes → JobResult
sandbox_result id (code, logs) = record {
  exit_code = code;
  logs = logs;
  provider = lit "daytona";
  sandbox_id = id;
}

module _ (answer : List Call → Call → Answer) (api_key : Bytes) where
  unfoldable pub request :
      {A : Type 0} → Action → (Answer → Result ComputeError A) → Run Call ComputeError A
  request action read sent =
      let call : Call = record { api_key = api_key; action = action } in
      (read (answer sent call), sent ++ call ∷ [])

  unfoldable pub wait_started :
      (clock : List Call → ℕ) → (fuel : ℕ) → (id : Bytes) → Run Call ComputeError (Unit {0})
  unfolding request start_reply start_timeout wait_from
  wait_started clock fuel id sent =
      wait_from clock (request (get_sandbox id) start_reply) (request sleep (λ reply. ok tt))
        (provider_failed "sandbox not started") (clock sent + start_timeout) fuel sent

  -- Whatever the answer is.
  unfoldable pub ensure_parent_dir :
      (id : Bytes) → (folder : Option Bytes) → Run Call ComputeError (Unit {0})
  unfolding request urlencode
  ensure_parent_dir id none = pure tt
  ensure_parent_dir id (some parent) = request (make_folder id (urlencode parent)) (λ reply. ok tt)

  unfoldable pub upload_file : (id : Bytes) → JobFile → Run Call ComputeError (Unit {0})
  unfolding request urlencode ok_or_err ensure_parent_dir folder_of file_name_of
  upload_file id file =
      ensure_parent_dir id (folder_of file.path)
      >> request (upload id (urlencode file.path) (file_name_of file.path) file.content) ok_or_err

  unfoldable pub execute_command :
      (id : Bytes)
      → (env : List (Bytes × Bytes)) → (timeout_secs : ℕ) → (command : Bytes)
      → Run Call ComputeError (ℤ × Bytes)
  unfolding request full_command execute_reply
  execute_command id env timeout_secs command =
      request (execute_process id (full_command command env) timeout_secs) execute_reply

  unfoldable pub run_on_sandbox :
      (clock : List Call → ℕ)
      → (fuel : ℕ) → (id : Bytes) → JobSpec
      → (timeout : ℕ) → Run Call ComputeError (ℤ × Bytes)
  unfolding wait_started upload_file execute_command place_files run_commands
  run_on_sandbox clock fuel id spec timeout = do
    wait_started clock fuel id
    place_files (upload_file id) spec.files
    run_commands (execute_command id spec.env timeout) spec.commands []

  -- From the creation of the sandbox on.
  unfoldable pub run_in_sandbox :
      (clock : List Call → ℕ)
      → (fuel : ℕ) → DaytonaConfig
      → JobSpec
      → Run Call ComputeError JobResult
  unfolding request create_reply target_of snapshot_of run_on_sandbox then_delete command_timeout
      sandbox_result
  run_in_sandbox clock fuel config spec =
      request (create_sandbox (snapshot_of config spec.snapshot) (target_of config)) create_reply
      >>= λ id.
          then_delete (run_on_sandbox clock fuel id spec (command_timeout spec.timeout_secs))
            (λ sent. sent ++ record { api_key = api_key; action = delete_sandbox id } ∷ [])
          >>= λ out. pure (sandbox_result id out)

unfoldable pub run_daytona_job :
    (answer : List Call → Call → Answer)
    → (clock : List Call → ℕ) → (trim : Bytes → Bytes) → (fuel : ℕ) → DaytonaConfig
    → JobSpec
    → Run Call ComputeError JobResult
unfolding daytona_key run_in_sandbox if_commands
run_daytona_job answer clock trim fuel config spec = if_commands spec.commands (
    lift (daytona_key trim config.configured_key spec) >>= λ api_key.
    run_in_sandbox answer api_key clock fuel config spec)
