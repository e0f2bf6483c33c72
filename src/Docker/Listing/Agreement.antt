-- ===== src/Docker/Listing/Agreement.antt =====
-- The filters against the states that are told, and what is told of a container that was created.
use nanokube.Prelude.{
  ℕ, ◌≤◌, ◌≡◌, refl, Bool, true, false, some, List, [], ◌∷◌, All, Str, str, same, same_refl, member,
  Dict, lookup,
}
use nanokube.Tags.Decimal.{max_uint32}
use nanokube.Tags.Builder.{Codec, SandboxConfig, ContainerConfig, build, container_builder}
use nanokube.Tags.Builder.Reading.{IsLawful, container_builder-hydrate}
use nanokube.Docker.Listing.{
  ContainerState, container_created, container_running, container_exited, SandboxState,
  sandbox_ready, sandbox_notready, container_state, sandbox_state, container_statuses,
  sandbox_statuses, Summary, Inspect, all_match, match_labels, container_of, status_of,
}

-- The statuses that the runtime documents.
abbrev pub docker_statuses : List Str
docker_statuses =
    str "created"
    ∷ str "running"
    ∷ str "paused"
    ∷ str "restarting"
    ∷ str "removing"
    ∷ str "exited"
    ∷ str "dead"
    ∷ []

abbrev pub is_state : ContainerState → ContainerState → Bool
is_state container_created container_created = true
is_state container_running container_running = true
is_state container_exited container_exited = true
is_state _ _ = false

abbrev pub is_sandbox_state : SandboxState → SandboxState → Bool
is_sandbox_state sandbox_ready sandbox_ready = true
is_sandbox_state sandbox_notready sandbox_notready = true
is_sandbox_state _ _ = false

-- A filter on a state asks for exactly those of the runtime's statuses that are told as that state,
-- for containers and for sandboxes.
statuses-state :
    (st : ContainerState) (sb : SandboxState)
    → All (λ s. member s (container_statuses st) ≡ is_state st (container_state s)) docker_statuses
      × All
          (λ s. member s (sandbox_statuses sb) ≡ is_sandbox_state sb (sandbox_state s))
          docker_statuses
unfolding same
statuses-state st sb = (containers st, sandboxes sb)
  where
    containers :
        (st : ContainerState)
        → All
            (λ s. member s (container_statuses st) ≡ is_state st (container_state s))
            docker_statuses
    containers container_created = (refl, (refl, (refl, (refl, (refl, (refl, (refl, tt)))))))
    containers container_running = (refl, (refl, (refl, (refl, (refl, (refl, (refl, tt)))))))
    containers container_exited = (refl, (refl, (refl, (refl, (refl, (refl, (refl, tt)))))))

    sandboxes :
        (sb : SandboxState)
        → All
            (λ s. member s (sandbox_statuses sb) ≡ is_sandbox_state sb (sandbox_state s))
            docker_statuses
    sandboxes sandbox_ready = (refl, (refl, (refl, (refl, (refl, (refl, (refl, tt)))))))
    sandboxes sandbox_notready = (refl, (refl, (refl, (refl, (refl, (refl, (refl, tt)))))))

all_match-labels :
    (unpacked raw selector : Dict Str)
    → All (λ e. lookup e.0 unpacked ≡ some e.1) selector
    → all_match unpacked raw selector ≡ true
unfolding all_match
all_match-labels unpacked raw [] h = refl
all_match-labels unpacked raw ((k, v) ∷ selector) h =
    rw (h.0, same_refl v) (all_match-labels unpacked raw selector h.1)

-- A container that the driver created with these tags is told, by the list and by its status, with
-- the name, the attempt, the labels and the annotations it was asked with, in the list with its
-- sandbox too; and a selector matches it whose labels are all among its own. The attempt is a 32-bit
-- number, and the codec reads the two configs back.
pub container_of-built :
    (c : Codec) (prefix driver name sandbox_id : Str) (n : ℕ) (config : ContainerConfig)
    (pod : SandboxConfig) (s : Summary) (i : Inspect) (unix_nano : Str → ℕ) (join : Str → Str → Str)
    (selector : Dict Str)
    → n ≤ max_uint32
    → IsLawful c pod config
    → s.labels ≡ (build c (container_builder c prefix driver name sandbox_id n config pod)).1
    → i.labels ≡ (build c (container_builder c prefix driver name sandbox_id n config pod)).1
    → All (λ e. lookup e.0 config.labels ≡ some e.1) selector
    → let told = container_of c prefix driver s in
      let status = status_of c prefix driver unix_nano join i in
      (told.pod_sandbox_id ≡ sandbox_id)
      × ((told.name ≡ name) × (status.name ≡ name))
      × ((told.attempt ≡ n) × (status.attempt ≡ n))
      × ((told.labels ≡ config.labels) × (status.labels ≡ config.labels))
      × ((told.annotations ≡ config.annotations) × (status.annotations ≡ config.annotations))
      × (match_labels c prefix driver s.labels selector ≡ true)
unfolding container_of status_of match_labels build
container_of-built c prefix driver name sandbox_id n config pod s i unix_nano join selector small
      law es ei h =
    let (m, sb, a, l, an, _, _) =
      container_builder-hydrate c prefix driver name sandbox_id n config pod small law in
    let matches = all_match-labels config.labels s.labels selector h in
    rw (es, ei) (sb, (m, m), (a, a), (l, l), (an, an), rw l (rw es at matches))
