-- ===== src/Compute.antt =====
-- crates/clotho-compute/src: jobs in the sandboxes of a provider. Here are the types and
-- `DisabledProvider` of lib.rs, and the choice of a provider of registry.rs. `R` is what a run of a
-- job is; an error keeps the constant part of its message.
pub mod Calls
pub mod Jobs
pub mod Box
pub mod Daytona
pub mod Teardown
pub mod Stopping
pub mod BoxJobs
pub mod SandboxJobs
pub mod Base64
pub mod Routing
mod Tests
mod SandboxTests
use Prim.Native.String.{String}
use clotho.Prelude.{
  ℕ, Bool, true, false, not, ◌&&◌, ◌||◌, Option, none, some, List, [], ◌∷◌, ◌++◌, map, all,
  if◌then◌else◌,
}
use clotho.Prelude.Bytes.{Bytes, lit, beq, is_empty, eq_ignore_ascii_case}
use clotho.Prelude.Results.{Result, ok, err}
use clotho.Prelude.Int.{ℤ}

pub record JobFile : Type 0 where
  pub path : Bytes
  pub content : Bytes

-- A map is here the list of its entries, in the order in which it is walked.
pub record JobSpec : Type 0 where
  pub label : Bytes
  pub snapshot : Bytes
  pub files : List JobFile
  pub commands : List Bytes
  pub env : List (Bytes × Bytes)
  pub timeout_secs : ℕ
  pub provider_id : Bytes
  pub provider_credentials : List (Bytes × Bytes)

pub record JobResult : Type 0 where
  pub exit_code : ℤ
  pub logs : Bytes
  pub provider : Bytes
  pub sandbox_id : Bytes

pub record ProviderCapabilities : Type 0 where
  pub one_shot_jobs : Bool
  pub persistent_workspaces : Bool
  pub snapshots : Bool
  pub templates : Bool
  pub regions : List Bytes
  pub ssh : Bool
  pub desktop : Bool
  pub public_url : Bool
  pub file_api : Bool
  pub terminal_streaming : Bool
  pub gpu : Bool
  pub gpu_types : List Bytes
  pub cost_hints : Bytes

unfoldable pub default_capabilities : ProviderCapabilities
default_capabilities = record {
  one_shot_jobs = false;
  persistent_workspaces = false;
  snapshots = false;
  templates = false;
  regions = [];
  ssh = false;
  desktop = false;
  public_url = false;
  file_api = false;
  terminal_streaming = false;
  gpu = false;
  gpu_types = [];
  cost_hints = [];
}

unfoldable pub join_comma : List Bytes → Bytes
join_comma [] = []
join_comma (x ∷ []) = x
join_comma (x ∷ y ∷ rest) = x ++ lit "," ++ join_comma (y ∷ rest)

-- One tag where the flag is set.
unfoldable pub tag : Bool → Bytes → List Bytes
tag flag text = if flag then text ∷ [] else []

-- One tag for a list that is not empty.
unfoldable pub list_tag : (name : Bytes) → List Bytes → List Bytes
unfolding join_comma
list_tag name [] = []
list_tag name (x ∷ xs) = (name ++ lit ":" ++ join_comma (x ∷ xs)) ∷ []

unfoldable pub feature_tags : ProviderCapabilities → List Bytes
unfolding tag list_tag
feature_tags c =
    tag c.one_shot_jobs (lit "one-shot-jobs")
    ++ tag c.persistent_workspaces (lit "persistent-workspaces")
    ++ tag c.snapshots (lit "snapshots")
    ++ tag c.templates (lit "templates")
    ++ tag c.ssh (lit "ssh")
    ++ tag c.desktop (lit "desktop")
    ++ tag c.public_url (lit "public-url")
    ++ tag c.file_api (lit "file-api")
    ++ tag c.terminal_streaming (lit "terminal-streaming")
    ++ tag c.gpu (lit "gpu")
    ++ list_tag (lit "gpu-types") c.gpu_types
    ++ list_tag (lit "regions") c.regions

pub data ProviderKind : Type 0 where
  direct bridge stub : ProviderKind

unfoldable pub kind_as_str : ProviderKind → Bytes
kind_as_str direct = lit "direct"
kind_as_str bridge = lit "bridge"
kind_as_str stub = lit "stub"

pub record ProviderDescriptor : Type 0 where
  pub id : Bytes
  pub name : Bytes
  pub kind : ProviderKind
  pub configured : Bool
  pub configured_reason : Bytes
  pub capabilities : ProviderCapabilities
  pub default_snapshot : Bytes
  pub notes : Bytes

pub data ComputeError : Type 0 where
  disabled invalid_job provider_failed : String → ComputeError
  unknown_provider : (id : Bytes) → ComputeError

-- An implementation of the trait `ComputeProvider`.
pub record ComputeProvider (R : Type 0) : Type 0 where
  pub provider_name : Bytes
  pub descriptor : ProviderDescriptor
  pub run_job : JobSpec → R

unfoldable pub daytona_capabilities : ProviderCapabilities
daytona_capabilities = record {
  one_shot_jobs = true;
  persistent_workspaces = true;
  snapshots = true;
  templates = false;
  regions = [];
  ssh = false;
  desktop = false;
  public_url = false;
  file_api = true;
  terminal_streaming = false;
  gpu = false;
  gpu_types = [];
  cost_hints = lit "Daytona cloud sandbox (API-key billed)";
}

-- `DisabledProvider::with_id`
unfoldable pub disabled_with_id :
    {R : Type 0}
    → (refuse : ComputeError → R) → (id : Bytes) → (reason : String) → (reason_text : Bytes)
    → ComputeProvider R
unfolding daytona_capabilities default_capabilities
disabled_with_id refuse id reason reason_text = record {
  provider_name = id;
  descriptor = record {
    id = id;
    name = if beq id (lit "daytona") then lit "Daytona" else id;
    kind = direct;
    configured = false;
    configured_reason = reason_text;
    capabilities = if beq id (lit "daytona") then daytona_capabilities else default_capabilities;
    default_snapshot = [];
    notes = lit "provider registered but credentials are not configured";
  };
  run_job = λ spec. refuse (disabled reason);
}

pub record ProviderRegistry (R : Type 0) : Type 0 where
  pub providers : List (ComputeProvider R)
  pub default_id : Bytes

module _ {R : Type 0} where
  -- `iter().find(…)`
  unfoldable pub first_where :
      (ComputeProvider R → Bool) → List (ComputeProvider R) → Option (ComputeProvider R)
  first_where test [] = none
  first_where test (p ∷ ps) = if test p then some p else first_where test ps

  unfoldable pub supports_jobs : ComputeProvider R → Bool
  supports_jobs p = p.descriptor.configured && p.descriptor.capabilities.one_shot_jobs

  -- `to_lowercase` is Rust's, over Unicode.
  module _ (to_lowercase : Bytes → Bytes) where
    unfoldable pub provider_by_id : ProviderRegistry R → (id : Bytes) → Option (ComputeProvider R)
    unfolding first_where
    provider_by_id registry id =
        first_where (λ p. beq p.provider_name (to_lowercase id)) registry.providers

    first_provider : List (ComputeProvider R) → Result ComputeError (ComputeProvider R)
    first_provider [] = err (disabled "no compute providers registered")
    first_provider (p ∷ ps) = ok p

    -- The default provider, even if it is not configured, or any.
    or_default_provider :
        ProviderRegistry R → Option (ComputeProvider R) → Result ComputeError (ComputeProvider R)
    unfolding first_provider
    or_default_provider registry (some p) = ok p
    or_default_provider registry none = first_provider registry.providers

    or_capable :
        ProviderRegistry R
        → (capable default : Option (ComputeProvider R)) → Result ComputeError (ComputeProvider R)
    unfolding or_default_provider
    or_capable registry (some p) default = ok p
    or_capable registry none default = or_default_provider registry default

    route :
        ProviderRegistry R
        → (capable default : Option (ComputeProvider R)) → Result ComputeError (ComputeProvider R)
    unfolding supports_jobs or_capable
    route registry capable none = or_capable registry capable none
    route registry capable (some p) =
        if supports_jobs p then ok p else or_capable registry capable (some p)

    requested : (id : Bytes) → Option (ComputeProvider R) → Result ComputeError (ComputeProvider R)
    requested id (some p) = ok p
    requested id none = err (unknown_provider id)

    unfoldable pub resolve :
        ProviderRegistry R → (provider_id : Bytes) → Result ComputeError (ComputeProvider R)
    unfolding provider_by_id first_where supports_jobs requested route
    resolve registry provider_id =
        if not (is_empty provider_id)
        then requested provider_id (provider_by_id registry provider_id)
        else route registry (first_where supports_jobs registry.providers)
            (provider_by_id registry registry.default_id)

    -- The job runs without the name of a provider.
    run_on : (refuse : ComputeError → R) → JobSpec → Result ComputeError (ComputeProvider R) → R
    run_on refuse spec (ok p) = p.run_job (record {
      label = spec.label;
      snapshot = spec.snapshot;
      files = spec.files;
      commands = spec.commands;
      env = spec.env;
      timeout_secs = spec.timeout_secs;
      provider_id = [];
      provider_credentials = spec.provider_credentials;
    })
    run_on refuse spec (err e) = refuse e

    unfoldable pub run_registry_job : (refuse : ComputeError → R) → ProviderRegistry R → JobSpec → R
    unfolding resolve run_on
    run_registry_job refuse registry spec = run_on refuse spec (resolve registry spec.provider_id)

    -- `get`
    described : Option (ComputeProvider R) → Option ProviderDescriptor
    described (some p) = some p.descriptor
    described none = none

    unfoldable pub get_provider : ProviderRegistry R → (id : Bytes) → Option ProviderDescriptor
    unfolding provider_by_id described
    get_provider registry id = described (provider_by_id registry id)

unfoldable pub has_region : (have : List Bytes) → Bytes → Bool
has_region [] r = false
has_region (h ∷ hs) r = eq_ignore_ascii_case h r || has_region hs r

-- Each flag that is needed is there.
unfoldable pub capabilities_match : (have need : ProviderCapabilities) → Bool
unfolding has_region
capabilities_match have need =
    (not need.one_shot_jobs || have.one_shot_jobs)
    && ((not need.persistent_workspaces || have.persistent_workspaces)
        && ((not need.snapshots || have.snapshots)
            && ((not need.templates || have.templates)
                && ((not need.ssh || have.ssh)
                    && ((not need.desktop || have.desktop)
                        && ((not need.public_url || have.public_url)
                            && ((not need.file_api || have.file_api)
                                && ((not need.terminal_streaming || have.terminal_streaming)
                                    && all (has_region have.regions) need.regions))))))))

unfoldable pub matching :
    {R : Type 0}
    → List (ComputeProvider R)
    → (required : ProviderCapabilities) → List ProviderDescriptor
unfolding capabilities_match
matching [] required = []
matching (p ∷ ps) required =
    let rest = matching ps required in
    if p.descriptor.configured && capabilities_match p.descriptor.capabilities required
    then p.descriptor ∷ rest
    else rest
