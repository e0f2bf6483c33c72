-- ===== src/Docker/Sandbox/Tests.antt =====
-- The life of concrete sandboxes.
use nanokube.Backend.Admit.Reading.{user_for}
use nanokube.Prelude.{
  ◌≡◌, refl, ap, ◌≢◌, inl, Bool, true, false, none, some, [], ◌∷◌, arith, if◌then◌else◌, Str, str,
  same, has_prefix, Dict, lookup, insert, copy_into, Result, ok, fail,
}
use nanokube.Network.Pool.{Service, Network}
use nanokube.Tags.Decimal.{pos, digits, format_int}
use nanokube.Tags.Builder.{
  Codec, SandboxConfig, ContainerConfig, HostAlias, full_key, key_managed_by, key_type,
  key_sandbox_uid, type_container, empty_sandbox_config, empty_container_config, build,
  internal_entries, new_tag_builder, set,
}
use nanokube.Tags.Builder.Reading.{IsLawful}
use nanokube.Docker.Create.{Request, Sandbox, Runtime, created, wish_of, create_container}
use nanokube.Docker.Create.Attempts.{Ends}
use nanokube.Docker.Listing.{Summary}
use nanokube.Backend.Admit.{
  PodContainer, Pod, admit, stash, stash_all, with_dns_aliases, with_host_aliases,
}
use nanokube.Docker.Sandbox.Plan.{PodConfig, sandbox_labels, copy_contexts, sandbox_builder}
use nanokube.Docker.Sandbox.Life.{Settings, Engine, Driver, remove_pod_sandbox, sandbox_filters}
use nanokube.Docker.Sandbox.Run.{run_pod_sandbox}
use nanokube.Docker.Sandbox.Users.{create_container-admit}
use nanokube.Docker.Sandbox.Removal.{without_pod, remove_pod_sandbox-without_pod}
use nanokube.Docker.Sandbox.Rerun.{run_pod_sandbox-Stale}
use nanokube.Docker.Sandbox.Reuse.{run_pod_sandbox-reuse}
use nanokube.Docker.Sandbox.Shelf.{
  Shelf, boxes, engine, engine-Holds, engine-Adds, old_id, inner_id, fresh_id, summary, inspected,
  passes,
}

abbrev web : PodContainer
web = record {
  name = str "web";
  security_context = some (record { run_as_user = some (pos 33); run_as_group = some (pos 44) });
  liveness_probe = none;
  readiness_probe = none;
  startup_probe = none;
  mount_paths = [];
}

abbrev spec : Pod
spec = record {
  annotations = (str "kubernetes.io/config.hash", str "h1") ∷ [];
  init_containers = [];
  containers = web ∷ [];
  ephemeral_containers = [];
  host_aliases = [];
  volumes = [];
}

abbrev admitted : Pod
admitted = admit (str "nanokube") (λ hs. []) (λ p. pos 0) (λ path. path) spec

abbrev config : SandboxConfig
config = record {
  name = str "web";
  namespace = str "prod";
  log_directory = [];
  labels = [];
  annotations =
      (str "kubernetes.io/config.hash", str "h1")
      ∷ (str "nanokube.security-context/web", str "33:44")
      ∷ [];
}

abbrev app : ContainerConfig
app = record { log_path = []; labels = []; annotations = [] }

abbrev codec : Codec
codec = record {
  encode_sandbox = λ x. str "P";
  decode_sandbox = λ s. if same s (str "P") then config else empty_sandbox_config;
  encode_container = λ y. str "C";
  decode_container = λ s. if same s (str "C") then app else empty_container_config;
}

codec-IsLawful : IsLawful codec config app
unfolding same
codec-IsLawful = record {
  sandbox = refl;
  sandbox_text = λ e. cc;
  container = refl;
  container_text = λ e. cc;
}

abbrev pod_config : PodConfig
pod_config = record {
  config = config;
  uid = str "u1";
  hostname = str "web";
  linux = none;
  dns_config = none;
  port_mappings = [];
}

abbrev labels_of : Dict Str
labels_of = sandbox_labels codec (str "nanokube") (str "docker") pod_config

abbrev sandbox : Sandbox
sandbox = record { labels = labels_of; security_opt = [] }

abbrev runtime : Runtime Unit
runtime = record { inspect = λ s id. ok sandbox; create = λ s w. (s, created w.name) }

abbrev request : Request
request = record {
  name = str "web";
  attempt = 2;
  config = app;
  run_as_user = none;
  run_as_group = none;
  run_as_username = [];
  own_pid = true;
  envs = [];
  mounts = [];
  process = record {
    image = str "nginx";
    entrypoint = [];
    cmd = [];
    working_dir = [];
    stdin_once = false;
    open_stdin = false;
    tty = false;
  };
  resources = record { cpu_shares = 0; memory = 0; memory_swap = 0; cpu_quota = 0; cpu_period = 0 };
  rights = record {
    privileged = false;
    readonly_rootfs = false;
    readonly_paths = [];
    masked_paths = [];
    group_add = [];
    cap_add = [];
    cap_drop = [];
  };
  no_new_privs = false;
}

-- The container runs as the user and group of the pod's spec.
create_container-admit_example :
    Ends codec runtime tt
      (wish_of (λ p. p) (str "box") sandbox request (str "33:44"))
      (str "web")
      config
      2
      0
      (create_container codec runtime 1
        (λ p. p)
        (str "nanokube")
        (str "docker")
        (str "box")
        request
        config
        tt)
unfolding user_for same format_int digits admit with_dns_aliases insert with_host_aliases stash_all
    stash lookup
create_container-admit_example =
    create_container-admit codec runtime 1 (λ p. p) (str "nanokube") (str "docker") (str "box")
      (λ hs. []) (λ p. pos 0) (λ path. path) spec pod_config request tt sandbox [] (str "33:44")
      refl refl (refl, (refl, tt)) refl refl refl refl refl (λ w h. cc) codec-IsLawful (omega arith)
      (omega arith)

abbrev settings : Settings
settings = record {
  codec = codec;
  prefix = str "nanokube";
  driver = str "docker";
  unix_nano = λ t. 0;
  parse_ip = λ t. none;
}

abbrev service : Service Unit
service = record {
  create_network = λ s n g. (s, fail []);
  get_network = λ s id. fail [];
  remove_network = λ s id. (s, none);
}

abbrev network : Network Unit
network = record {
  default_done = true;
  default_net = none;
  networks = [];
  next_ip = [];
  service = tt;
  cancelled = false;
}

abbrev inner_labels : Dict Str
inner_labels =
    (str "nanokube.managed-by", str "docker")
    ∷ (str "nanokube.type", str "container")
    ∷ (str "nanokube.sandbox-uid", str "old")
    ∷ []

-- A runtime that holds the sandbox of the pod and a container in it.
abbrev shelf : Shelf
shelf = record { old = some labels_of; inner = some inner_labels; fresh = none }

abbrev driver : Driver Shelf Unit
driver = record { engine = shelf; log_streams = []; network = network }

remove_pod_sandbox-without_pod_example :
    lookup inner_id (boxes (remove_pod_sandbox settings engine service old_id driver).engine)
    ≡ without_pod (str "nanokube") (str "docker") old_id (boxes shelf) inner_id
unfolding same
remove_pod_sandbox-without_pod_example =
    remove_pod_sandbox-without_pod settings engine service boxes old_id driver inner_id engine-Holds
      refl refl refl

-- The same pod with other config.
abbrev changed : PodConfig
changed = record pod_config {
  config = record config { annotations = (str "kubernetes.io/config.hash", str "h2") ∷ [] };
}

abbrev is_inner : Result Str Str → Bool
is_inner (ok id) = same id inner_id
is_inner (fail e) = false

run_pod_sandbox-Stale_example :
    lookup inner_id
      (boxes (run_pod_sandbox settings engine service (λ t. none) changed driver).0.engine)
    ≡ none
unfolding same nanokube.Docker.Sandbox.Life.list_pod_sandbox
    nanokube.Docker.Sandbox.Life.sandboxes_of passes sandbox_filters internal_entries set insert
    new_tag_builder has_prefix lookup sandbox_labels copy_contexts build sandbox_builder
    nanokube.Docker.Listing.match_labels nanokube.Docker.Listing.all_match
    nanokube.Docker.Listing.sandbox_of nanokube.Docker.Sandbox.Shelf.split copy_into
    nanokube.Tags.Builder.annotations nanokube.Tags.Builder.get nanokube.Tags.Builder.hydrate
    nanokube.Tags.Builder.labels nanokube.Tags.Builder.pod_sandbox_config
    nanokube.Tags.Builder.with_tags
run_pod_sandbox-Stale_example =
    run_pod_sandbox-Stale settings engine service boxes (λ t. none) changed driver old_id inner_id
      engine-Holds engine-Adds refl refl (refl, tt) (inl (refl, refl)) refl
      (λ s w e. false_not_true (ap is_inner e))
  where
    false_not_true : false ≢ true
    false_not_true e = cc

run_pod_sandbox-reuse_example :
    run_pod_sandbox settings engine service (λ t. none) pod_config driver ≡ (driver, ok old_id)
unfolding passes sandbox_filters internal_entries set insert new_tag_builder has_prefix lookup
    sandbox_labels copy_contexts build sandbox_builder
run_pod_sandbox-reuse_example =
    run_pod_sandbox-reuse settings engine service (λ t. none) pod_config driver
      (summary old_id labels_of)
      (record {
        id = old_id;
        created = [];
        labels = labels_of;
        status = str "running";
        host_config = none;
        network_settings = none;
      })
      app refl refl refl refl refl codec-IsLawful
