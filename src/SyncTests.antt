-- ===== src/SyncTests.antt =====
-- A small cluster, and the theorems about the sync to pods at concrete inputs.
use contain.Base.{◌≡◌, refl, String, true, Option, none, some, List, [], ◌∷◌}
use contain.Base.{ok, pos}
use contain.Sync.{
  ContainConfigSync, RunpodContainerStatus, Runpod, SyncTarget, Call, kubectl, slept, Cluster,
  pod_wait, get_pods_args,
}
use contain.Sync.Target.{IsOffered, pod_wait-IsOffered}

abbrev container : String → String → String → RunpodContainerStatus
container name image started = record {
  name = name;
  image = image;
  ready = true;
  started = true;
  state = record { waiting = record { reason = "" }; running = record { started_at = started } };
}

abbrev pod : String → String → Runpod
pod name phase = record {
  metadata = record { name = name; namespace = "dev"; created_timestamp = "now" };
  status = record {
    phase = phase;
    container_statuses =
        container "sidecar" "proxy:1" "noon" ∷ container "app" "base:1@a" "noon" ∷ [];
  };
}

abbrev pods_at : String → List Runpod
pods_at output = pod "old" "Failed" ∷ pod "new" output ∷ []

-- The pod runs from the second attempt on.
abbrev listing : List Call → Option String
listing [] = some "Pending"
listing (c ∷ h) = some "Running"

abbrev cluster : Cluster String
cluster = record {
  run = λ h args stdin. listing h;
  parse_pods = pods_at;
  compressed = λ layer. some layer;
}

abbrev config : ContainConfigSync
config = record { pod_selector = "app=it"; namespace = "dev"; get_attempts_max = pos 3 }

abbrev target : SyncTarget
target = record {
  pod = record { name = "new"; namespace = "dev"; created_timestamp = "now" };
  container = container "app" "base:1@a" "noon";
}

abbrev asked : Call
asked = kubectl (get_pods_args config) none

pod_wait_twice :
    pod_wait cluster config "base:1" 4 1 [] ≡ (some (ok target), asked ∷ slept ∷ asked ∷ [])
unfolding pod_wait
pod_wait_twice = refl

pod_wait-IsOffered_example :
    IsOffered cluster config "base:1" target (pod_wait cluster config "base:1" 4 1 []).1
unfolding pod_wait
pod_wait-IsOffered_example = pod_wait-IsOffered cluster config "base:1" 4 1 [] target refl
