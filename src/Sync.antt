-- ===== src/Sync.antt =====
-- containersync.go, getpods_kubectl.go and layercopy_kubectl.go: a layer is copied into a running
-- container of a pod, through kubectl.
pub mod Attempts
pub mod Target
use contain.Base.{
  ℕ, zero, suc, String, Bool, true, false, not, Option, none, some, List, [], ◌∷◌, ◌++◌,
}
use contain.Base.{if◌then◌else◌, ltb, str_eq, starts_with, Result, ok, err, ℤ, pos, negsuc}

pub record ContainConfigSync : Type 0 where
  pub pod_selector : String
  pub namespace : String
  pub get_attempts_max : ℤ

pub record RunpodContainerStatusStateWaiting : Type 0 where
  pub reason : String

pub record RunpodContainerStatusStateRunning : Type 0 where
  pub started_at : String

-- `Terminated` and, of a status, `RestartCount` are not read.
pub record RunpodContainerStatusState : Type 0 where
  pub waiting : RunpodContainerStatusStateWaiting
  pub running : RunpodContainerStatusStateRunning

pub record RunpodContainerStatus : Type 0 where
  pub name : String
  pub image : String
  pub ready : Bool
  pub started : Bool
  pub state : RunpodContainerStatusState

pub record RunpodStatus : Type 0 where
  pub phase : String
  pub container_statuses : List RunpodContainerStatus

pub record RunpodMetadata : Type 0 where
  pub name : String
  pub namespace : String
  pub created_timestamp : String

pub record Runpod : Type 0 where
  pub metadata : RunpodMetadata
  pub status : RunpodStatus

pub record SyncTarget : Type 0 where
  pub pod : RunpodMetadata
  pub container : RunpodContainerStatus

-- `no_selector` is `zap.L().Fatal`.
pub data SyncError : Type 0 where
  single_layer no_selector max_retries not_found no_content copy_failed : SyncError
  two_targets : String → String → SyncError

-- What is done outside: a command of kubectl with its standard input, and a sleep.
pub data Call : Type 0 where
  kubectl : List String → Option String → Call
  slept : Call

-- kubectl with what was done before: its output, or none where it fails. `parse_pods` is what
-- `json.Unmarshal` makes of an output.
pub record Cluster (Layer : Type 0) : Type 0 where
  pub run : List Call → List String → Option String → Option String
  pub parse_pods : String → List Runpod
  pub compressed : Layer → Option String

-- The loop over the containers of a pod; `found` is `container`.
unfoldable pub match_from :
    String
    → Option RunpodContainerStatus
    → List RunpodContainerStatus
    → Option RunpodContainerStatus
match_from prefix found [] = found
match_from prefix found (cs ∷ more) =
    let skipped = match_from prefix found more in
    let matched = match_from prefix (some cs) more in
    if not (starts_with cs.image prefix)
    then skipped
    else if not (str_eq cs.state.waiting.reason "")
    then none
    else if str_eq cs.state.running.started_at ""
    then none
    else elim found [ none ↦ matched | some _ ↦ none ]

-- `MatchPod`
unfoldable pub match_pod : String → Runpod → Option RunpodContainerStatus
unfolding match_from
match_pod prefix pod =
    if str_eq pod.status.phase "Running"
    then match_from prefix none pod.status.container_statuses
    else none

-- The loop over the pods.
unfoldable pub select_target :
    String → Option SyncTarget → List Runpod → Result SyncError (Option SyncTarget)
unfolding match_pod
select_target prefix target [] = ok target
select_target prefix target (pod ∷ pods) =
    let skipped = select_target prefix target pods in
    elim (match_pod prefix pod) [
      | none ↦ skipped
      | some container ↦
          let taken =
            select_target prefix (some (record { pod = pod.metadata; container = container }))
              pods in
          elim target [ none ↦ taken | some t ↦ err (two_targets t.pod.name pod.metadata.name) ]
    ]

-- The arguments of kubectl in `PodInfo`
unfoldable pub get_pods_args : ContainConfigSync → List String
get_pods_args config =
    ("get" ∷ "pods" ∷ "-o" ∷ "json" ∷ "--selector" ∷ config.pod_selector ∷ [])
    ++ (if str_eq config.namespace "" then [] else "-n" ∷ config.namespace ∷ [])

-- The arguments of kubectl in `LayerToContainer`
unfoldable pub copy_args : SyncTarget → List String
copy_args target =
    ("exec" ∷ target.pod.name ∷ "--namespace" ∷ target.pod.namespace ∷ "-c" ∷ [])
    ++ (target.container.name ∷ "-i" ∷ "--" ∷ "tar" ∷ "xvzmf" ∷ "-" ∷ "-C" ∷ "/" ∷ [])
    ++ ("--no-same-owner" ∷ "--overwrite" ∷ [])

-- `attempt > max`
abbrev pub is_beyond : ℕ → ℤ → Bool
is_beyond attempt (pos m) = ltb m attempt
is_beyond attempt (negsuc m) = true

-- What `PodWait` does when it has gone through the pods; the last argument is its next attempt.
abbrev pub after :
    Result SyncError (Option SyncTarget)
    → List Call
    → Option (Result SyncError SyncTarget) × List Call
    → Option (Result SyncError SyncTarget) × List Call
after (err e) asked again = (some (err e), asked)
after (ok none) asked again = again
after (ok (some t)) asked again = (some (ok t), asked)

-- `prefix` is the `imagePrefix` of `NewContainersync`, which is the base of the config.
module _ {Layer : Type 0} (cluster : Cluster Layer) (config : ContainConfigSync)
    (prefix : String) where
  -- What `PodInfo` returns, where an error leaves no pods.
  unfoldable pub pod_info : List Call → List Runpod
  pod_info h = elim (cluster.run h (get_pods_args config) none) [
    | none ↦ []
    | some output ↦ cluster.parse_pods output
  ]

  -- `PodWait`. The first argument is the number of attempts that may be made; none is that there are
  -- no more.
  unfoldable pub pod_wait : ℕ → ℕ → List Call → Option (Result SyncError SyncTarget) × List Call
  unfolding select_target pod_info
  pod_wait zero attempt h = (none, h)
  pod_wait (suc fuel) attempt h =
      let asked = kubectl (get_pods_args config) none ∷ h in
      let again = pod_wait fuel (suc attempt) (slept ∷ asked) in
      if is_beyond attempt config.get_attempts_max
      then (some (err max_retries), h)
      else if str_eq config.pod_selector ""
      then (some (err no_selector), h)
      else after (select_target prefix none (pod_info h)) asked again

  -- `LayerToContainer`
  unfoldable pub layer_to_container :
      Layer → SyncTarget → List Call → Result SyncError (Unit {0}) × List Call
  unfolding copy_args
  layer_to_container layer target h = elim (cluster.compressed layer) [
    | none ↦ (err no_content, h)
    | some content ↦ (
      elim (cluster.run h (copy_args target) (some content)) [
        | none ↦ err copy_failed
        | some output ↦ ok tt
      ],
      kubectl (copy_args target) (some content) ∷ h,
    )
  ]

  abbrev pub copied :
      SyncTarget
      → Result SyncError (Unit {0}) × List Call
      → Option (Result SyncError SyncTarget) × List Call
  copied target (ok u, h) = (some (ok target), h)
  copied target (err e, h) = (some (err e), h)

  -- What `Run` does with the one layer, when `PodWait` has returned.
  abbrev pub to_target :
      Layer
      → Option (Result SyncError SyncTarget) × List Call
      → Option (Result SyncError SyncTarget) × List Call
  to_target layer (none, h) = (none, h)
  to_target layer (some (err e), h) = (some (err not_found), h)
  to_target layer (some (ok target), h) = copied target (layer_to_container layer target h)

  -- `Containersync.Run`
  unfoldable pub run_sync :
      ℕ → List Layer → List Call → Option (Result SyncError SyncTarget) × List Call
  unfolding pod_wait layer_to_container
  run_sync fuel [] h = (some (err single_layer), h)
  run_sync fuel (layer ∷ []) h = to_target layer (pod_wait fuel 1 h)
  run_sync fuel (a ∷ b ∷ more) h = (some (err single_layer), h)
