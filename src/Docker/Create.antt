-- ===== src/Docker/Create.antt =====
-- CreateContainer of pkg/driver/docker/docker.go: the user of the container, what the runtime is
-- asked for, and the attempts that are made while the container's name is in use.
pub mod Attempts
use nanokube.Prelude.{
  ℕ, zero, suc, ◌+◌, ◌-◌, ◌*◌, ◌/◌, ◌%◌, ◌^◌, ◌≤◌, ◌<◌, ◌≡◌, refl, sym, ap, ◌∙◌, subst, ◌≢◌, ◌↔◌,
  ◌⊎◌, inl, inr, Bool, true, false, ◌&&◌, ◌||◌, not, Option, none, some, List, [], ◌∷◌, ◌++◌, map,
  arith, ltb, leb, ◌==◌, if◌then◌else◌, ltb→lt, lt→ltb, leb→le, ==_iff, Bool-cases, Option-cases,
  length, take, drop, length-append, length-drop, length-take, take-append, drop-append,
  take-append-drop, All, All-append, All-split, Str, str, same, same_iff, same_refl, same_ne,
  append_left_cancel, has_prefix, has_prefix-append, Dict, lookup, insert, copy_into, IsMap,
  insert-IsMap, or_else, lookup-copy_into, lookup-insert, lookup-insert_self, lookup-insert_ne,
  value_of, Returns, Returns-some, Result, ok, fail, Result-cases,
}
use nanokube.Tags.Builder.{
  Codec, SandboxConfig, ContainerConfig, TagBuilder, security_context_for, increment_attempt, build,
  container_builder, hydrate,
}

pub record Mount : Type 0 where
  pub host_path : Str
  pub container_path : Str
  pub readonly : Bool

-- What the request says of the process, of its resources (64-bit numbers) and of its rights, which
-- is passed on.
pub record Process : Type 0 where
  pub image : Str
  pub entrypoint : List Str
  pub cmd : List Str
  pub working_dir : Str
  pub stdin_once : Bool
  pub open_stdin : Bool
  pub tty : Bool

pub record Resources : Type 0 where
  pub cpu_shares : ℕ
  pub memory : ℕ
  pub memory_swap : ℕ
  pub cpu_quota : ℕ
  pub cpu_period : ℕ

pub record Rights : Type 0 where
  pub privileged : Bool
  pub readonly_rootfs : Bool
  pub readonly_paths : List Str
  pub masked_paths : List Str
  pub group_add : List Str
  pub cap_add : List Str
  pub cap_drop : List Str

-- The request; a user or a group is its decimal number.
pub record Request : Type 0 where
  pub name : Str
  pub attempt : ℕ
  pub config : ContainerConfig
  pub run_as_user : Option Str
  pub run_as_group : Option Str
  pub run_as_username : Str
  pub own_pid : Bool
  pub envs : List (Str × Str)
  pub mounts : List Mount
  pub process : Process
  pub resources : Resources
  pub rights : Rights
  pub no_new_privs : Bool

-- What the runtime is asked for, but for what is cleared and what stays as the sandbox has it.
pub record Wish : Type 0 where
  pub name : Str
  pub labels : Dict Str
  pub user : Str
  pub network_mode : Str
  pub ipc_mode : Str
  pub pid_mode : Str
  pub env : List Str
  pub binds : List Str
  pub process : Process
  pub resources : Resources
  pub rights : Rights
  pub security_opt : List Str
  -- whether the output is kept in files that rotate
  pub json_log : Bool

pub data Reply : Type 0 where
  created : Str → Reply
  conflict : Reply
  refused : Str → Reply

-- What is read of the sandbox's container.
pub record Sandbox : Type 0 where
  pub labels : Dict Str
  pub security_opt : List Str

-- The runtime's client: ContainerInspect and ContainerCreate.
pub record Runtime (S : Type 0) : Type 0 where
  pub inspect : S → Str → Result Str Sandbox
  pub create : S → Wish → S × Reply

-- The user and group that the request names, as a text.
abbrev pub named_user : Option Str → Option Str → Str
named_user none none = []
named_user none (some gid) = b':' ∷ gid
named_user (some uid) none = uid
named_user (some uid) (some gid) = uid ++ (b':' ∷ gid)

-- The user, with the one that is stashed for the container as the last choice.
abbrev pub chosen_user : Request → Str → Str
chosen_user q stashed =
    let named =
      if same q.run_as_username []
      then named_user q.run_as_user q.run_as_group
      else q.run_as_username in
    if same named [] then stashed else named

-- "RunAsGroup requires RunAsUser"
abbrev pub lacks_user : Option Str → Option Str → Bool
lacks_user none (some gid) = true
lacks_user _ _ = false

-- `resolve` gives the path behind symbolic links, or the path itself where there is none.
abbrev pub bind_of : (Str → Str) → Mount → Str
bind_of resolve m =
    resolve m.host_path ++ (b':' ∷ (m.container_path ++ (if m.readonly then str ":ro" else [])))

abbrev pub wish_of : (Str → Str) → Str → Sandbox → Request → Str → Wish
wish_of resolve sandbox_id sandbox q user = record {
  name = [];
  labels = [];
  user = user;
  network_mode = str "container:" ++ sandbox_id;
  ipc_mode = str "container:" ++ sandbox_id;
  pid_mode = if q.own_pid then [] else str "container:" ++ sandbox_id;
  env = map (λ e. e.0 ++ (b'=' ∷ e.1)) q.envs;
  binds = map (bind_of resolve) q.mounts;
  process = q.process;
  resources = q.resources;
  rights = q.rights;
  security_opt =
      sandbox.security_opt ++ (if q.no_new_privs then str "no-new-privileges" ∷ [] else []);
  json_log = not (same q.config.log_path []);
}

module _ {S : Type 0} (c : Codec) (r : Runtime S) where
  -- The wish under the name and with the labels that the tags give.
  abbrev pub tagged : TagBuilder → Wish → Wish
  tagged b w = record w { name = (build c b).0; labels = (build c b).1 }

  abbrev pub settle : S × Reply → (S → Option (S × Result Str Str)) → Option (S × Result Str Str)
  settle (s, created id) again = some (s, ok id)
  settle (s, refused e) again = some (s, fail e)
  settle (s, conflict) again = again s

  -- ContainerCreate, again with the next attempt while the name is in use; on fuel.
  unfoldable pub create_loop : ℕ → S → TagBuilder → Wish → Option (S × Result Str Str)
  create_loop zero s b w = none
  create_loop (suc fuel) s b w =
      settle (r.create s (tagged b w)) (λ s'. create_loop fuel s' (increment_attempt b) w)

  abbrev pub create_in :
      ℕ
      → (Str → Str)
      → Str
      → Str
      → Str
      → Request
      → SandboxConfig
      → S
      → Result Str Sandbox
      → Option (S × Result Str Str)
  create_in fuel resolve prefix driver sandbox_id q sandbox_config s (fail e) = some (s, fail e)
  create_in fuel resolve prefix driver sandbox_id q sandbox_config s (ok sandbox) =
      if lacks_user q.run_as_user q.run_as_group
      then some (s, fail (str "RunAsGroup requires RunAsUser"))
      else create_loop fuel s
          (container_builder c prefix driver q.name sandbox_id q.attempt q.config sandbox_config)
          (wish_of resolve sandbox_id sandbox q
            (chosen_user q (security_context_for q.name (hydrate prefix driver sandbox.labels))))

  unfoldable pub create_container :
      ℕ → (Str → Str) → Str → Str → Str → Request → SandboxConfig → S → Option (S × Result Str Str)
  create_container fuel resolve prefix driver sandbox_id q sandbox_config s =
      create_in fuel resolve prefix driver sandbox_id q sandbox_config s (r.inspect s sandbox_id)
