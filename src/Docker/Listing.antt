-- ===== src/Docker/Listing.antt =====
-- ListContainers, ListPodSandbox and ContainerStatus of pkg/driver/docker/docker.go: the filters that
-- the runtime is asked with, and what is told of each container that it answers.
pub mod Agreement
use nanokube.Prelude.{
  ℕ, zero, suc, ◌+◌, ◌-◌, ◌*◌, ◌/◌, ◌%◌, ◌^◌, ◌≤◌, ◌<◌, ◌≡◌, refl, sym, ap, ◌∙◌, subst, ◌≢◌, ◌↔◌,
  ◌⊎◌, inl, inr, Bool, true, false, ◌&&◌, ◌||◌, not, Option, none, some, List, [], ◌∷◌, ◌++◌, map,
  arith, ltb, leb, ◌==◌, if◌then◌else◌, ltb→lt, lt→ltb, leb→le, ==_iff, Bool-cases, Option-cases,
  length, take, drop, length-append, length-drop, length-take, take-append, drop-append,
  take-append-drop, All, All-append, All-split, Str, str, same, same_iff, same_refl, same_ne,
  member, append_left_cancel, has_prefix, has_prefix-append, Dict, lookup, insert, copy_into, IsMap,
  insert-IsMap, or_else, lookup-copy_into, lookup-insert, lookup-insert_self, lookup-insert_ne,
  value_of, Returns, Returns-some, Result, ok, fail, Result-cases,
}
use nanokube.Tags.Builder.{
  Codec, TagBuilder, get, set, new_tag_builder, attempt, labels, annotations, log_path,
  internal_tags, hydrate, full_key, key_name, key_namespace, key_uid, key_sandbox_uid, key_type,
  type_container, type_sandbox,
}

pub data ContainerState : Type 0 where
  container_created container_running container_exited : ContainerState

pub data SandboxState : Type 0 where
  sandbox_ready sandbox_notready : SandboxState

abbrev pub container_state : Str → ContainerState
container_state status =
    if same status (str "created")
    then container_created
    else if same status (str "running")
    then container_running
    else container_exited

abbrev pub sandbox_state : Str → SandboxState
sandbox_state status = if same status (str "running") then sandbox_ready else sandbox_notready

-- The runtime's statuses that a filter on a state asks for.
abbrev pub container_statuses : ContainerState → List Str
container_statuses container_created = str "created" ∷ []
container_statuses container_running = str "running" ∷ []
container_statuses container_exited =
    str "restarting" ∷ str "paused" ∷ str "removing" ∷ str "exited" ∷ str "dead" ∷ []

abbrev pub sandbox_statuses : SandboxState → List Str
sandbox_statuses sandbox_ready = str "running" ∷ []
sandbox_statuses sandbox_notready =
    str "created"
    ∷ str "restarting"
    ∷ str "paused"
    ∷ str "removing"
    ∷ str "exited"
    ∷ str "dead"
    ∷ []

-- `ContainerFilter`; an id is empty where it is not asked for.
pub record ContainerFilter : Type 0 where
  pub id : Str
  pub pod_sandbox_id : Str
  pub state : Option ContainerState
  pub label_selector : Dict Str

abbrev pub label_filter : Str × Str → Str × Str
label_filter e = (str "label", e.0 ++ (b'=' ∷ e.1))

abbrev pub status_filter : Str → Str × Str
status_filter s = (str "status", s)

abbrev pub asked : Str → Str → List (Str × Str)
asked name [] = []
asked name v = (name, v) ∷ []

-- The arguments of a filter, by name and value.
unfoldable pub container_filters : Str → Str → Option ContainerFilter → List (Str × Str)
container_filters prefix driver f =
    map label_filter (internal_tags (set key_type type_container (new_tag_builder prefix driver)))
    ++ elim f [
      | none ↦ []
      | some f ↦
          asked (str "id") f.id
          ++ (map (λ v. label_filter (full_key prefix key_sandbox_uid, v.1))
                (asked (str "label") f.pod_sandbox_id)
              ++ elim f.state [ none ↦ [] | some st ↦ map status_filter (container_statuses st) ])
    ]

-- A container as the runtime lists it, and as the driver tells it.
pub record Summary : Type 0 where
  pub id : Str
  pub labels : Dict Str
  pub state : Str
  pub image : Str
  pub image_id : Str
  pub created : ℕ

-- Seconds as a 64-bit number of nanoseconds.
abbrev pub nanoseconds : ℕ → ℕ
nanoseconds n = n * 1000000000 % 18446744073709551616

pub record Container : Type 0 where
  pub id : Str
  pub pod_sandbox_id : Str
  pub name : Str
  pub attempt : ℕ
  pub image : Str
  pub image_ref : Str
  pub created_at : ℕ
  pub state : ContainerState
  pub labels : Dict Str
  pub annotations : Dict Str

pub record PodSandbox : Type 0 where
  pub id : Str
  pub name : Str
  pub namespace : Str
  pub uid : Str
  pub created_at : ℕ
  pub state : SandboxState
  pub labels : Dict Str
  pub annotations : Dict Str

unfoldable pub all_match : Dict Str → Dict Str → Dict Str → Bool
all_match unpacked raw [] = true
all_match unpacked raw ((k, v) ∷ selector) =
    (same (value_of (lookup k unpacked)) v || same (value_of (lookup k raw)) v)
    && all_match unpacked raw selector

pub record MountPoint : Type 0 where
  pub destination : Str
  pub source : Str
  pub rw : Bool

pub record StatusMount : Type 0 where
  pub container_path : Str
  pub host_path : Str
  pub readonly : Bool

abbrev pub status_mount : MountPoint → StatusMount
status_mount m = record {
  container_path = m.destination;
  host_path = m.source;
  readonly = not m.rw;
}

-- What ContainerStatus reads of an inspected container.
pub record Inspect : Type 0 where
  pub id : Str
  pub labels : Dict Str
  pub status : Str
  pub exit_code : ℕ
  pub oom_killed : Bool
  pub error : Str
  pub memory_limited : Bool
  pub log_path : Str
  pub image : Str
  pub image_ref : Str
  pub created : Str
  pub started_at : Str
  pub finished_at : Str
  pub mounts : List MountPoint

-- The status, without what `verbose` adds.
pub record ContainerStatus : Type 0 where
  pub id : Str
  pub name : Str
  pub attempt : ℕ
  pub state : ContainerState
  pub labels : Dict Str
  pub annotations : Dict Str
  pub log_path : Str
  pub image : Str
  pub image_ref : Str
  pub created_at : ℕ
  pub started_at : ℕ
  pub finished_at : ℕ
  pub mounts : List StatusMount
  pub exit_code : ℕ
  pub reason : Str

-- A time that has come, in nanoseconds; zero for the zero time of Go.
abbrev pub moment : (Str → ℕ) → Str → ℕ
moment unix_nano t = if same t [] || same t (str "0001-01-01T00:00:00Z") then 0 else unix_nano t

-- The reason of a container that has exited.
unfoldable pub exit_reason : Inspect → Str
exit_reason i =
    if i.oom_killed || ((i.exit_code == 137) && i.memory_limited)
    then str "OOMKilled"
    else if i.exit_code == 0
    then str "Completed"
    else if not (same i.error [])
    then i.error
    else str "Error"

abbrev pub has_exited : ContainerState → Bool
has_exited container_exited = true
has_exited _ = false

module _ (c : Codec) (prefix driver : Str) where
  -- `matchLabels`.
  unfoldable pub match_labels : Dict Str → Dict Str → Bool
  match_labels raw selector = all_match (labels c (hydrate prefix driver raw)) raw selector

  unfoldable pub container_of : Summary → Container
  container_of s =
      let tb = hydrate prefix driver s.labels in
      record {
        id = s.id;
        pod_sandbox_id = get tb key_sandbox_uid;
        name = get tb key_name;
        attempt = attempt tb;
        image = s.image;
        image_ref = s.image_id;
        created_at = nanoseconds s.created;
        state = container_state s.state;
        labels = labels c tb;
        annotations = annotations c tb;
      }

  unfoldable pub sandbox_of : Summary → PodSandbox
  sandbox_of s =
      let tb = hydrate prefix driver s.labels in
      record {
        id = s.id;
        name = get tb key_name;
        namespace = get tb key_namespace;
        uid = get tb key_uid;
        created_at = nanoseconds s.created;
        state = sandbox_state s.state;
        labels = labels c tb;
        annotations = annotations c tb;
      }

  -- The loop over what the runtime lists.
  unfoldable pub containers_of : Dict Str → List Summary → List Container
  containers_of selector [] = []
  containers_of selector (s ∷ ss) =
      let rest = containers_of selector ss in
      if match_labels s.labels selector then container_of s ∷ rest else rest

  abbrev pub selector_of : Option ContainerFilter → Dict Str
  selector_of none = []
  selector_of (some f) = f.label_selector

  abbrev pub listed : Dict Str → Result Str (List Summary) → Result Str (List Container)
  listed selector (fail e) = fail e
  listed selector (ok ss) = ok (containers_of selector ss)

  -- `ListContainers`; `list` is the runtime's ContainerList under a filter.
  unfoldable pub list_containers :
      (List (Str × Str) → Result Str (List Summary))
      → Option ContainerFilter
      → Result Str (List Container)
  list_containers list f = listed (selector_of f) (list (container_filters prefix driver f))

  -- `ContainerStatus`; `unix_nano` parses a time and `join` is filepath.Join.
  unfoldable pub status_of : (Str → ℕ) → (Str → Str → Str) → Inspect → ContainerStatus
  status_of unix_nano join i =
      let tb = hydrate prefix driver i.labels in
      let exited = has_exited (container_state i.status) in
      record {
        id = i.id;
        name = get tb key_name;
        attempt = attempt tb;
        state = container_state i.status;
        labels = labels c tb;
        annotations = annotations c tb;
        log_path = if same (log_path c join tb) [] then i.log_path else log_path c join tb;
        image = i.image;
        image_ref = i.image_ref;
        created_at = unix_nano i.created;
        started_at = moment unix_nano i.started_at;
        finished_at = moment unix_nano i.finished_at;
        mounts = map status_mount i.mounts;
        exit_code = if exited then i.exit_code % 4294967296 else 0;
        reason = if exited then exit_reason i else [];
      }

  abbrev pub container_status :
      (Str → ℕ) → (Str → Str → Str) → Result Str Inspect → Result Str ContainerStatus
  container_status unix_nano join (fail e) = fail e
  container_status unix_nano join (ok i) = ok (status_of unix_nano join i)
