-- ===== src/Backend/Tests.antt =====
-- Admit and its probes on a concrete pod.
use nanokube.Prelude.{
  ◌≡◌, refl, true, false, Option, none, some, List, [], ◌∷◌, ◌++◌, arith, Str, str, same, lookup,
  insert, ok, fail,
}
use nanokube.Tags.Decimal.{ℤ, pos, negsuc, digits, format_int}
use nanokube.Tags.Builder.{
  Codec, SandboxConfig, ContainerConfig, HostAlias, hydrate, dns_aliases, extra_hosts, host_lines,
  empty_sandbox_config, empty_container_config,
}
use nanokube.Tags.Builder.Reading.{IsLawful, built}
use nanokube.Network.Pool.{
  Service, Network, Allocated, default, claim, from_config, reclaimable, with_sandbox_uid,
}
use nanokube.Backend.Resources.{
  Prepared, Joins, prepare_dynamic_resources-Joins, prepare_dynamic_resources,
}
use nanokube.Docker.Sandbox.Plan.{PodConfig, sandbox_wish}
use nanokube.Docker.Listing.{Inspect}
use nanokube.Docker.Exec.{ExecClient, exec_sync}
use nanokube.Docker.Exec.Target.{exec_sync-rewrite_probe}
use nanokube.Backend.Probes.{
  IntOrString, from_int, Probe, rewrite_probe, sandbox_exec_sentinel, header_args,
}
use nanokube.Backend.Admit.{PodContainer, Pod, admit, expand}
use nanokube.Backend.Admit.Aliases.{admit-aliases, no_commas}

abbrev port_value : IntOrString → ℤ
port_value (from_int n) = n
port_value _ = pos 0

abbrev health : Probe
health = record {
  timeout_seconds = negsuc 0;
  exec = none;
  http_get = some (record {
    scheme = str "HTTPS";
    host = str "web.local";
    port = from_int (pos 8443);
    path = [];
    http_headers = (str "X-Probe", str "1") ∷ [];
  });
  tcp_socket = none;
  grpc = none;
}

rewrite_probe_run :
    (rewrite_probe port_value health).exec
    ≡ some (
        str "__sandbox__"
        ∷ str "wget"
        ∷ str "-q"
        ∷ str "-O"
        ∷ str "/dev/null"
        ∷ str "-S"
        ∷ str "--no-check-certificate"
        ∷ str "--timeout=1"
        ∷ str "--header"
        ∷ str "Host: web.local"
        ∷ str "--header"
        ∷ str "X-Probe: 1"
        ∷ str "https://localhost:8443/"
        ∷ [])
unfolding rewrite_probe digits same header_args format_int
rewrite_probe_run = refl

abbrev pod : SandboxConfig
pod = empty_sandbox_config

abbrev app : ContainerConfig
app = empty_container_config

abbrev codec : Codec
codec = record {
  encode_sandbox = λ x. str "P";
  decode_sandbox = λ s. pod;
  encode_container = λ y. str "C";
  decode_container = λ s. app;
}

codec-IsLawful : IsLawful codec pod app
codec-IsLawful = record {
  sandbox = refl;
  sandbox_text = λ e. cc;
  container = refl;
  container_text = λ e. cc;
}

abbrev inspected : Inspect
inspected = record {
  id = str "c1";
  labels = (built codec (str "nanokube") (str "docker") (str "app") (str "f00d") 0 app pod).tags;
  status = str "running";
  exit_code = 0;
  oom_killed = false;
  error = [];
  memory_limited = false;
  log_path = [];
  image = [];
  image_ref = [];
  created = [];
  started_at = [];
  finished_at = [];
  mounts = [];
}

-- A client that notes where it runs what.
abbrev client : ExecClient (List Str)
client = record {
  inspect = λ s id. ok inspected;
  exec_create = λ s id cmd. (id ∷ cmd ++ s, ok (str "e1"));
  exec_copy = λ s id. (s, ok (record { stdout = str "up"; stderr = []; error = none }));
  expired = λ s. false;
  exec_inspect = λ s id. ok (pos 0);
}

exec_sync-rewrite_probe_example :
    (cmd : List Str) × ((rewrite_probe port_value health).exec ≡ some (sandbox_exec_sentinel ∷ cmd))
    × (exec_sync client (str "nanokube") (str "docker") [] (str "c1") (sandbox_exec_sentinel ∷ cmd)
        ≡ exec_sync client (str "nanokube") (str "docker") [] (str "f00d") cmd)
unfolding same
exec_sync-rewrite_probe_example =
    exec_sync-rewrite_probe client codec (str "nanokube") (str "docker") [] port_value health
      (str "c1") (str "f00d") (str "app") 0 app pod inspected refl refl refl (omega arith)
      codec-IsLawful refl

abbrev container : Str → PodContainer
container name = record {
  name = name;
  security_context = none;
  liveness_probe = some health;
  readiness_probe = none;
  startup_probe = none;
  mount_paths = str "~/data" ∷ [];
}

abbrev alias : HostAlias
alias = record { ip = str "10.0.0.9"; hostnames = str "db" ∷ str "cache" ∷ [] }

abbrev spec : Pod
spec = record {
  annotations = [];
  init_containers = [];
  containers = container (str "web") ∷ container (str "log") ∷ [];
  ephemeral_containers = [];
  host_aliases = alias ∷ [];
  volumes = some (str "~") ∷ none ∷ [];
}

abbrev marshalled : List HostAlias → Str
marshalled hs = str "[]"

abbrev decoded : Str → Option (List HostAlias)
decoded t = some (alias ∷ [])

admit-aliases_example :
    (dns_aliases (
        hydrate
          (str "nanokube")
          (str "docker")
          (admit (str "nanokube") marshalled port_value (λ p. p) spec).annotations)
      ≡ str "web" ∷ str "log" ∷ [])
    × (extra_hosts decoded (
          hydrate
            (str "nanokube")
            (str "docker")
            (admit (str "nanokube") marshalled port_value (λ p. p) spec).annotations)
        ≡ str "db:10.0.0.9" ∷ str "cache:10.0.0.9" ∷ [])
unfolding no_commas same host_lines
admit-aliases_example =
    admit-aliases (str "nanokube") (str "docker") marshalled decoded port_value (λ p. p) spec
      (container (str "web")) (container (str "log") ∷ []) alias [] tt refl refl refl refl refl refl

-- A path stays as it is where its home cannot be found.
expand_run :
    (expand (λ p. p) (λ p. some (str "/home/me")) (λ p. some p) (str "~") ≡ str "/home/me")
    × (expand (λ p. str "$HOME") (λ p. none) (λ p. some p) (str "~") ≡ str "~")
expand_run = (refl, refl)

-- A pool with the default network and one that is free.
abbrev pool_entry : Str → Str → Allocated
pool_entry id ip = record {
  id = id;
  network_type = str "bridge";
  gateway = ip;
  net = record { ip = ip; mask = [] };
  sandbox_uid = none;
}

abbrev pool : Network Unit
pool = record {
  default_done = true;
  default_net = some (pool_entry (str "a") (10 ∷ []));
  networks =
      (10 ∷ [], pool_entry (str "a") (10 ∷ [])) ∷ (20 ∷ [], pool_entry (str "b") (20 ∷ [])) ∷ [];
  next_ip = 30 ∷ [];
  service = tt;
  cancelled = false;
}

abbrev service : Service Unit
service = record {
  create_network = λ s n g. (s, fail []);
  get_network = λ s id. fail [];
  remove_network = λ s id. (s, none);
}

abbrev pod_config : PodConfig
pod_config = record {
  config = record empty_sandbox_config { annotations = (str "nanokube.network", str "b") ∷ [] };
  uid = str "one";
  hostname = [];
  linux = none;
  dns_config = none;
  port_mappings = [];
}

abbrev prepared : Prepared Unit
prepared = record {
  network = record pool {
    networks =
        (10 ∷ [], pool_entry (str "a") (10 ∷ []))
        ∷ (20 ∷ [], record (pool_entry (str "b") (20 ∷ [])) { sandbox_uid = some (str "one") })
        ∷ [];
  };
  annotations = (str "nanokube.network", str "b") ∷ [];
  error = none;
}

prepare_dynamic_resources-Joins_example :
    Joins
      (str "one")
      (default service pool).0.networks
      prepared.network.networks
      (sandbox_wish codec (str "nanokube") (str "docker") (λ t. none) pod_config).networks
unfolding lookup prepare_dynamic_resources from_config default reclaimable claim with_sandbox_uid
    insert
prepare_dynamic_resources-Joins_example =
    prepare_dynamic_resources-Joins (str "nanokube") service codec (str "docker") (str "one")
      (λ t. none) [] pool prepared pod_config (refl, refl, (refl, refl, tt)) refl refl refl refl
      refl
