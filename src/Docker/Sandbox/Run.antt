-- ===== src/Docker/Sandbox/Run.antt =====
-- RunPodSandbox and PullImage of pkg/driver/docker/docker.go: what becomes of the sandboxes that a
-- pod has already, and how a new one is made and started.
use nanokube.Prelude.{
  Bool, true, false, Option, none, some, List, [], ◌∷◌, ◌++◌, if◌then◌else◌, Str, str, same, Dict,
  lookup, value_of, Result, ok, fail,
}
use nanokube.Network.Pool.{Service}
use nanokube.Tags.Builder.{HostAlias, full_key, key_uid}
use nanokube.Docker.Images.{Image, image_status}
use nanokube.Docker.Listing.{SandboxState, sandbox_ready, sandbox_notready, PodSandbox}
use nanokube.Docker.Sandbox.Status.{PodSandboxStatus}
use nanokube.Docker.Sandbox.Plan.{PodConfig, sandbox_wish}
use nanokube.Docker.Sandbox.Life.{
  Settings, Engine, Driver, list_pod_sandbox, pod_sandbox_status, remove_pod_sandbox,
}

abbrev pub hash_of : Dict Str → Str
hash_of annotations = value_of (lookup (str "kubernetes.io/config.hash") annotations)

abbrev pub is_ready : SandboxState → Bool
is_ready sandbox_ready = true
is_ready sandbox_notready = false

abbrev pub status_or :
    Option PodSandboxStatus → Result Str PodSandboxStatus → Option PodSandboxStatus
status_or old (fail err) = old
status_or old (ok st) = some st

abbrev pub sandboxes_or_none : Result Str (List PodSandbox) → List PodSandbox
sandboxes_or_none (fail err) = []
sandboxes_or_none (ok ss) = ss

-- The image that PullImage has pulled.
abbrev pub pulled_id : Str → Result Str (Option Image) → Result Str Str
pulled_id ref (fail err) = fail err
pulled_id ref (ok none) = fail (str "image " ++ (ref ++ str " not found after pull"))
pulled_id ref (ok (some i)) = ok i.id

module _ {S : Type 0} (e : Engine S) where
  abbrev pub after_pull : Str → S × Option Str → S × Result Str Str
  after_pull ref (s, some err) = (s, fail err)
  after_pull ref (s, none) = (s, pulled_id ref (image_status (e.image_inspect s) ref))

  -- PullImage.
  unfoldable pub pull_image : S → Str → S × Result Str Str
  pull_image s ref = after_pull ref (e.image_pull s ref)

  -- The error that ends RunPodSandbox before anything is made, if the image cannot be had.
  abbrev pub looked_again : Str → S × Result Str Str → S × Option Str
  looked_again ref (s, fail err) = (s, some err)
  looked_again ref (s, ok id) =
      (s, elim (image_status (e.image_inspect s) ref) [ fail err ↦ some err | ok i ↦ none ])

  abbrev pub image_ready : S → Str → Result Str (Option Image) → S × Option Str
  image_ready s ref (ok (some i)) = (s, none)
  image_ready s ref (ok none) = looked_again ref (pull_image s ref)
  image_ready s ref (fail err) = looked_again ref (pull_image s ref)

module _ {S N : Type 0} where
  abbrev pub started : Driver S N → Result Str PodSandboxStatus → Driver S N × Result Str Str
  started d (fail err) = (d, fail err)
  started d (ok st) = (d, ok st.id)

module _ {S N : Type 0} (k : Settings) (e : Engine S) where
  abbrev pub status_of_created :
      Driver S N → S × Result Str Str → Driver S N × Result Str PodSandboxStatus
  status_of_created d (s, fail err) = (record d { engine = s }, fail err)
  status_of_created d (s, ok id) = (record d { engine = s }, pod_sandbox_status k e s id)

  abbrev pub create_with :
      (Str → Option (List HostAlias))
      → PodConfig
      → Driver S N
      → S × Option Str
      → Driver S N × Result Str PodSandboxStatus
  create_with decode q d (s, some err) = (record d { engine = s }, fail err)
  create_with decode q d (s, none) =
      status_of_created (record d { engine = s })
        (e.create s (sandbox_wish k.codec k.prefix k.driver decode q))

  -- A sandbox is made where none is in hand.
  abbrev pub in_hand :
      (Str → Option (List HostAlias))
      → PodConfig
      → Driver S N × Option PodSandboxStatus
      → Driver S N × Result Str PodSandboxStatus
  in_hand decode q (d, some st) = (d, ok st)
  in_hand decode q (d, none) = create_with decode q d (
      image_ready e d.engine (str "busybox")
        (image_status (e.image_inspect d.engine) (str "busybox")))

  abbrev pub ready_again : Str → Driver S N → S × Option Str → Driver S N × Result Str Str
  ready_again id d (s, some err) = (record d { engine = s }, fail err)
  ready_again id d (s, none) = started (record d { engine = s }) (pod_sandbox_status k e s id)

  abbrev pub start_unless_ready :
      Driver S N × Result Str PodSandboxStatus → Driver S N × Result Str Str
  start_unless_ready (d, fail err) = (d, fail err)
  start_unless_ready (d, ok st) =
      if is_ready st.state then (d, ok st.id) else ready_again st.id d (e.start_box d.engine st.id)

module _ {S N : Type 0} (k : Settings) (e : Engine S) (v : Service N) where
  -- The loop over the sandboxes that the pod has: the last one with the same hash is kept in hand.
  unfoldable pub settle_existing :
      Str
      → List PodSandbox
      → Driver S N × Option PodSandboxStatus
      → Driver S N × Option PodSandboxStatus
  settle_existing hash [] (d, st) = (d, st)
  settle_existing hash (x ∷ xs) (d, st) = settle_existing hash xs (
      if same (hash_of x.annotations) hash
      then (d, status_or st (pod_sandbox_status k e d.engine x.id))
      else (remove_pod_sandbox k e v x.id d, st))

  unfoldable pub run_pod_sandbox :
      (Str → Option (List HostAlias)) → PodConfig → Driver S N → Driver S N × Result Str Str
  run_pod_sandbox decode q d =
      let existing = sandboxes_or_none (
        list_pod_sandbox k e d.engine (
          some (record {
            id = [];
            state = none;
            label_selector = (full_key k.prefix key_uid, q.uid) ∷ [];
          }))) in
      start_unless_ready k e
        (in_hand k e decode q (settle_existing (hash_of q.config.annotations) existing (d, none)))
