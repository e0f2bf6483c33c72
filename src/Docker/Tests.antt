-- ===== src/Docker/Tests.antt =====
-- The driver on a concrete runtime.
use nanokube.Prelude.{
  ◌≡◌, refl, Bool, true, false, none, some, List, [], ◌∷◌, ◌++◌, arith, if◌then◌else◌, All, Str,
  str, same, member, Dict, lookup, insert, ok,
}
use nanokube.Tags.Decimal.{digits, parse_from}
use nanokube.Tags.Builder.{
  Codec, SandboxConfig, ContainerConfig, security_context_for, hydrate, build, container_builder,
  empty_sandbox_config, empty_container_config, get, increment_attempt, pod_sandbox_config,
}
use nanokube.Tags.Builder.Reading.{IsLawful}
use nanokube.Docker.Create.{
  Sandbox, Request, Reply, created, conflict, Runtime, chosen_user, wish_of, create_container,
  create_loop,
}
use nanokube.Docker.Create.Attempts.{ConflictsIn, Ends, create_container-Ends}
use nanokube.Docker.Listing.{Summary, Inspect, container_of, status_of, match_labels, exit_reason}
use nanokube.Docker.Listing.Agreement.{container_of-built}

abbrev pod : SandboxConfig
pod = record {
  name = str "web";
  namespace = str "prod";
  log_directory = [];
  labels = [];
  annotations = [];
}

abbrev app : ContainerConfig
app = record {
  log_path = [];
  labels = (str "tier", str "front") ∷ (str "app", str "web") ∷ [];
  annotations = [];
}

abbrev codec : Codec
codec = record {
  encode_sandbox = λ x. str "P";
  decode_sandbox = λ s. if same s (str "P") then pod else empty_sandbox_config;
  encode_container = λ y. str "C";
  decode_container = λ s. if same s (str "C") then app else empty_container_config;
}

codec-IsLawful : IsLawful codec pod app
unfolding same
codec-IsLawful = record {
  sandbox = refl;
  sandbox_text = λ e. cc;
  container = refl;
  container_text = λ e. cc;
}

-- A runtime whose state is the names in use; its sandbox has a user stashed for the container.
abbrev names_in_use : List Str
names_in_use = str "app-0.web.prod" ∷ str "app-1.web.prod" ∷ []

abbrev taken : Bool → List Str → Str → List Str × Reply
taken true names name = (names, conflict)
taken false names name = (name ∷ names, created name)

abbrev stashed : Dict Str
stashed = (str "nanokube.security-context/app", str "1000:1000") ∷ []

abbrev sandbox : Sandbox
sandbox = record { labels = stashed; security_opt = str "seccomp=unconfined" ∷ [] }

abbrev runtime : Runtime (List Str)
runtime = record { inspect = λ s id. ok sandbox; create = λ s w. taken (member w.name s) s w.name }

runtime-ConflictsIn : ConflictsIn runtime names_in_use names_in_use
runtime-ConflictsIn w h = in_use (member w.name names_in_use) h
  where
    in_use :
        (b : Bool)
        → (taken b names_in_use w.name).1 ≡ conflict
        → ((taken b names_in_use w.name).0 ≡ names_in_use) × (b ≡ true)
    in_use true h = (refl, refl)
    in_use false h = cc

abbrev request : Request
request = record {
  name = str "app";
  attempt = 0;
  config = app;
  run_as_user = none;
  run_as_group = none;
  run_as_username = [];
  own_pid = true;
  envs = (str "A", str "1") ∷ [];
  mounts = [];
  process = record {
    image = str "nginx";
    entrypoint = [];
    cmd = [];
    working_dir = [];
    stdin_once = false;
    open_stdin = false;
    tty = false;
  };
  resources = record { cpu_shares = 2; memory = 0; memory_swap = 0; cpu_quota = 0; cpu_period = 0 };
  rights = record {
    privileged = false;
    readonly_rootfs = true;
    readonly_paths = [];
    masked_paths = [];
    group_add = [];
    cap_add = [];
    cap_drop = str "ALL" ∷ [];
  };
  no_new_privs = true;
}

create_run :
    create_container codec runtime 3
      (λ p. p)
      (str "nanokube")
      (str "docker")
      (str "f00d")
      request
      pod
      names_in_use
    ≡ some (str "app-2.web.prod" ∷ names_in_use, ok (str "app-2.web.prod"))
unfolding create_container create_loop same build get lookup container_builder insert digits
    pod_sandbox_config increment_attempt parse_from
create_run = refl

create_container-Ends_example :
    Ends codec runtime names_in_use
      (wish_of
        (λ p. p)
        (str "f00d")
        sandbox
        request
        (chosen_user request
          (security_context_for (str "app") (hydrate (str "nanokube") (str "docker") stashed))))
      (str "app")
      pod
      0
      2
      (create_container codec runtime 3
        (λ p. p)
        (str "nanokube")
        (str "docker")
        (str "f00d")
        request
        pod
        names_in_use)
create_container-Ends_example =
    create_container-Ends codec runtime 3 (λ p. p) (str "nanokube") (str "docker") (str "f00d")
      request pod names_in_use sandbox names_in_use refl refl runtime-ConflictsIn codec-IsLawful
      (omega arith) (omega arith)

abbrev app_labels : Dict Str
app_labels =
    (build codec (
      container_builder codec (str "nanokube") (str "docker") (str "app") (str "f00d") 2 app pod)).1

abbrev summary : Summary
summary = record {
  id = str "c1";
  labels = app_labels;
  state = str "exited";
  image = [];
  image_id = [];
  created = 5;
}

abbrev inspected : Inspect
inspected = record {
  id = str "c1";
  labels = app_labels;
  status = str "exited";
  exit_code = 137;
  oom_killed = false;
  error = [];
  memory_limited = true;
  log_path = str "/var/lib/c1.log";
  image = str "nginx";
  image_ref = [];
  created = [];
  started_at = [];
  finished_at = [];
  mounts = [];
}

killed : exit_reason inspected ≡ str "OOMKilled"
unfolding exit_reason
killed = refl

abbrev selector : Dict Str
selector = (str "app", str "web") ∷ []

selector_in : All (λ e. lookup e.0 app.labels ≡ some e.1) selector
unfolding lookup
selector_in = (refl, tt)

container_of-built_example :
    ((container_of codec (str "nanokube") (str "docker") summary).pod_sandbox_id ≡ str "f00d")
    × (((container_of codec (str "nanokube") (str "docker") summary).name ≡ str "app")
        × ((status_of codec (str "nanokube") (str "docker") (λ t. 1) (λ a b. a ++ b) inspected).name
            ≡ str "app"))
    × (((container_of codec (str "nanokube") (str "docker") summary).attempt ≡ 2)
        × ((status_of codec
              (str "nanokube")
              (str "docker")
              (λ t. 1)
              (λ a b. a ++ b)
              inspected).attempt
            ≡ 2))
    × (((container_of codec (str "nanokube") (str "docker") summary).labels ≡ app.labels)
        × ((status_of codec
              (str "nanokube")
              (str "docker")
              (λ t. 1)
              (λ a b. a ++ b)
              inspected).labels
            ≡ app.labels))
    × (((container_of codec (str "nanokube") (str "docker") summary).annotations ≡ app.annotations)
        × ((status_of codec
              (str "nanokube")
              (str "docker")
              (λ t. 1)
              (λ a b. a ++ b)
              inspected).annotations
            ≡ app.annotations))
    × (match_labels codec (str "nanokube") (str "docker") app_labels selector ≡ true)
container_of-built_example =
    container_of-built codec (str "nanokube") (str "docker") (str "app") (str "f00d") 2 app pod
      summary inspected (λ t. 1) (λ a b. a ++ b) selector (omega arith) codec-IsLawful refl refl
      selector_in
