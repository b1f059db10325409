-- ===== src/Sync/Target.antt =====
-- What `PodWait` waits for.
use contain.Base.{
  ℕ, zero, suc, ◌≡◌, refl, String, Bool, ◌&&◌, not, Option, none, some, List, [], ◌∷◌, arith,
}
use mathlib.Core.Path.{subst}
use contain.Base.{if◌then◌else◌, filter, str_eq, starts_with, Result, ok, err, Bool-cases, inl, inr}
use contain.Sync.{
  after, ContainConfigSync, RunpodContainerStatus, Runpod, SyncTarget, SyncError, Call, kubectl,
  slept, Cluster, match_from, match_pod, select_target, pod_info, pod_wait, get_pods_args,
  is_beyond,
}

module _ (prefix : String) where
  abbrev pub has_image : RunpodContainerStatus → Bool
  has_image cs = starts_with cs.image prefix

  abbrev pub is_up : RunpodContainerStatus → Bool
  is_up cs = str_eq cs.state.waiting.reason "" && not (str_eq cs.state.running.started_at "")

  -- The container of a list that has one and in which it is up.
  abbrev pub only_up : List RunpodContainerStatus → Option RunpodContainerStatus
  only_up [] = none
  only_up (cs ∷ []) = if is_up cs then some cs else none
  only_up (cs ∷ ds ∷ more) = none

  -- The targets that pods offer: those of the pods that run, where exactly one container has an
  -- image of the prefix, and is up.
  unfoldable pub targets : List Runpod → List SyncTarget
  targets [] = []
  targets (pod ∷ pods) =
      let rest = targets pods in
      if str_eq pod.status.phase "Running"
      then elim (only_up (filter has_image pod.status.container_statuses)) [
        | none ↦ rest
        | some cs ↦ record { pod = pod.metadata; container = cs } ∷ rest
      ]
      else rest

  match_from_found :
      (d : RunpodContainerStatus) (cs : List RunpodContainerStatus)
      → match_from prefix (some d) cs ≡ elim (filter has_image cs) [ [] ↦ some d | _ ∷ _ ↦ none ]
  unfolding match_from
  match_from_found d [] = refl
  match_from_found d (c ∷ cs) = grind (arith, match_from_found d cs)

  match_from-only_up :
      (cs : List RunpodContainerStatus) → match_from prefix none cs ≡ only_up (filter has_image cs)
  unfolding match_from
  match_from-only_up [] = refl
  match_from-only_up (c ∷ cs) = grind (arith, match_from-only_up cs, match_from_found c cs)

  match_pod-only_up :
      (pod : Runpod)
      → match_pod prefix pod ≡ (
          if str_eq pod.status.phase "Running"
          then only_up (filter has_image pod.status.container_statuses)
          else none)
  unfolding match_pod
  match_pod-only_up pod = rw (match_from-only_up pod.status.container_statuses) refl

  targets_step :
      (pod : Runpod) (pods : List Runpod)
      → targets (pod ∷ pods) ≡ elim (match_pod prefix pod) [
        | none ↦ targets pods
        | some cs ↦ record { pod = pod.metadata; container = cs } ∷ targets pods
      ]
  unfolding targets
  targets_step pod pods = rw (match_pod-only_up pod) (ground arith)

  select_target_taken :
      (t : SyncTarget) (pods : List Runpod) {o : Option SyncTarget}
      → select_target prefix (some t) pods ≡ ok o
      → (o ≡ some t) × (targets pods ≡ [])
  unfolding select_target targets
  select_target_taken t [] h = ground arith
  select_target_taken t (pod ∷ pods) h =
      grind (arith, targets_step pod pods, select_target_taken t pods)

  select_target-targets :
      (pods : List Runpod) {t : SyncTarget}
      → select_target prefix none pods ≡ ok (some t)
      → targets pods ≡ t ∷ []
  unfolding select_target targets
  select_target-targets [] h = ground arith
  select_target-targets (pod ∷ pods) h = grind (
    arith,
    targets_step pod pods,
    select_target_taken (record { pod = pod.metadata; container = _ }) pods,
    select_target-targets pods,
  )

module _ {Layer : Type 0} (cluster : Cluster Layer) (config : ContainConfigSync)
    (prefix : String) where
  -- The pods that kubectl listed last offer this target and no other.
  abbrev pub IsOffered : SyncTarget → List Call → Type 0
  IsOffered t h =
      (earlier : List Call) × (h ≡ (kubectl (get_pods_args config) none ∷ earlier))
      × (targets prefix (pod_info cluster config prefix earlier) ≡ t ∷ [])

  abbrev Finds : Option (Result SyncError SyncTarget) × List Call → Type 0
  Finds (some (ok t), h) = IsOffered t h
  Finds (some (err e), h) = Unit
  Finds (none, h) = Unit

  Finds-of :
      (r : Option (Result SyncError SyncTarget) × List Call) {t : SyncTarget}
      → Finds r
      → r.0 ≡ some (ok t)
      → IsOffered t r.1
  Finds-of r f e = subst (λ o. Finds (o, r.1)) e f

  after-Finds :
      (r : Result SyncError (Option SyncTarget)) (h : List Call)
      (again : Option (Result SyncError SyncTarget) × List Call)
      → ((t : SyncTarget)
          → r ≡ ok (some t)
          → targets prefix (pod_info cluster config prefix h) ≡ t ∷ [])
      → Finds again
      → Finds (after r (kubectl (get_pods_args config) none ∷ h) again)
  after-Finds (err e) h again offered f = tt
  after-Finds (ok none) h again offered f = f
  after-Finds (ok (some t)) h again offered f = (h, refl, offered t refl)

  pod_wait-Finds :
      (fuel attempt : ℕ) (h : List Call) → Finds (pod_wait cluster config prefix fuel attempt h)
  unfolding pod_wait
  pod_wait-Finds zero attempt h = tt
  pod_wait-Finds (suc fuel) attempt h =
      elim (Bool-cases (is_beyond attempt config.get_attempts_max)) [
        | inl beyond ↦ rw beyond tt
        | inr within ↦ rw within (elim (Bool-cases (str_eq config.pod_selector "")) [
          | inl empty ↦ rw empty tt
          | inr given ↦ rw given (
              after-Finds (select_target prefix none (pod_info cluster config prefix h)) h _
                (λ t e. select_target-targets prefix (pod_info cluster config prefix h) e)
                (pod_wait-Finds fuel (suc attempt)
                  (slept ∷ (kubectl (get_pods_args config) none ∷ h))))
        ])
      ]

  -- A target that `PodWait` returns is the only one that the pods offer that kubectl listed last: of
  -- the pods that run, it is the only one with exactly one container whose image has the prefix and
  -- which is up, and it has that container.
  pub pod_wait-IsOffered :
      (fuel attempt : ℕ) (h : List Call) (t : SyncTarget)
      → (pod_wait cluster config prefix fuel attempt h).0 ≡ some (ok t)
      → IsOffered t (pod_wait cluster config prefix fuel attempt h).1
  pod_wait-IsOffered fuel attempt h t e =
      Finds-of (pod_wait cluster config prefix fuel attempt h) (pod_wait-Finds fuel attempt h) e
