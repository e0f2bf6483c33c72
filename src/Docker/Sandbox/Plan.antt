-- ===== src/Docker/Sandbox/Plan.antt =====
-- The first part of RunPodSandbox of pkg/driver/docker/docker.go: the tags, and what the runtime is
-- asked for. A port is a 32-bit number, a protocol its name.
use nanokube.Prelude.{
  zero, Bool, true, false, ◌&&◌, ◌||◌, Option, none, some, List, [], ◌∷◌, ◌++◌, map, ltb, ◌==◌,
  if◌then◌else◌, Str, str, same, has_prefix, Dict, lookup, insert,
}
use nanokube.Tags.Decimal.{ℤ, pos, format_int}
use nanokube.Tags.Label.{to_lower}
use nanokube.Tags.Builder.{
  Codec, SandboxConfig, TagBuilder, HostAlias, set, new_tag_builder, with_tags,
  with_pod_sandbox_config, build, extra_hosts, full_key, key_name, key_namespace, key_uid, key_type,
  key_security_context, type_sandbox,
}
use nanokube.Docker.Sandbox.Status.{NamespaceMode, NamespaceOption, mode_node, HostModes, host_text}

-- `KeyNetwork`.
abbrev pub key_network : Str
key_network = str "network"

pub record PodSecurity : Type 0 where
  pub privileged : Bool
  pub namespace_options : Option NamespaceOption

pub record LinuxConfig : Type 0 where
  pub security_context : Option PodSecurity
  pub sysctls : Dict Str

pub record DnsConfig : Type 0 where
  pub servers : List Str
  pub searches : List Str
  pub options : List Str

pub record PortMapping : Type 0 where
  pub protocol : Str
  pub container_port : ℤ
  pub host_port : ℤ
  pub host_ip : Str

-- The request: the config that the tags hold, and the rest of it.
pub record PodConfig : Type 0 where
  pub config : SandboxConfig
  pub uid : Str
  pub hostname : Str
  pub linux : Option LinuxConfig
  pub dns_config : Option DnsConfig
  pub port_mappings : List PortMapping

-- What ContainerCreate is asked for; no platform is named, since the image is looked up without
-- its details.
pub record SandboxWish : Type 0 where
  pub name : Str
  pub image : Str
  pub entrypoint : List Str
  pub hostname : Str
  pub domainname : Str
  pub labels : Dict Str
  pub privileged : Bool
  pub modes : HostModes
  pub sysctls : Dict Str
  pub dns : DnsConfig
  pub extra_hosts : List Str
  pub exposed_ports : List Str
  pub port_bindings : Dict (Str × Str)
  pub networks : List Str

-- The loop that copies the stashed security contexts into the labels.
unfoldable pub copy_contexts : Str → Dict Str → Dict Str → Dict Str
copy_contexts sc_prefix labels [] = labels
copy_contexts sc_prefix labels ((k, v) ∷ m) =
    copy_contexts sc_prefix (if has_prefix k sc_prefix then insert k v labels else labels) m

-- Strings in the order of Go, sorted, and with equal neighbours as one.
unfoldable pub before : Str → Str → Bool
before [] t = true
before (x ∷ s) [] = false
before (x ∷ s) (y ∷ t) = let rest = before s t in ltb x y || ((x == y) && rest)

unfoldable pub sorted_in : Str → List Str → List Str
sorted_in s [] = s ∷ []
sorted_in s (t ∷ ts) = let later = sorted_in s ts in if before s t then s ∷ t ∷ ts else t ∷ later

unfoldable pub sort : List Str → List Str
unfolding sorted_in
sort [] = []
sort (s ∷ ss) = sorted_in s (sort ss)

unfoldable pub compact_from : Str → List Str → List Str
compact_from s [] = s ∷ []
compact_from s (t ∷ ts) = let rest = compact_from t ts in if same s t then rest else s ∷ rest

unfoldable pub compact : List Str → List Str
unfolding compact_from
compact [] = []
compact (s ∷ ss) = compact_from s ss

abbrev pub options_of : Option LinuxConfig → Option NamespaceOption
options_of none = none
options_of (some l) = elim l.security_context [ none ↦ none | some sc ↦ sc.namespace_options ]

abbrev pub is_node : NamespaceMode → Bool
is_node mode_node = true
is_node _ = false

abbrev pub on_node : Option NamespaceOption → Bool
on_node none = false
on_node (some ns) = is_node ns.network

-- The modes: shareable where nothing is said.
abbrev pub modes_of : Option NamespaceOption → HostModes
modes_of none = record { network_mode = []; pid_mode = []; ipc_mode = str "shareable" }
modes_of (some ns) = record {
  network_mode = if is_node ns.network then host_text else [];
  pid_mode = if is_node ns.pid then host_text else [];
  ipc_mode = if is_node ns.ipc then host_text else str "shareable";
}

abbrev pub is_privileged : Option LinuxConfig → Bool
is_privileged none = false
is_privileged (some l) = elim l.security_context [ none ↦ false | some sc ↦ sc.privileged ]

abbrev pub sysctls_of : Option LinuxConfig → Dict Str
sysctls_of none = []
sysctls_of (some l) = l.sysctls

abbrev pub dns_of : Option DnsConfig → DnsConfig
dns_of none = record { servers = []; searches = []; options = [] }
dns_of (some d) = d

-- The host's port: the container's own where neither a port nor an annotation is given.
abbrev pub host_port_of : Bool → ℤ → ℤ → ℤ
host_port_of true (pos zero) container_port = container_port
host_port_of _ host_port container_port = host_port

abbrev pub port_of : PortMapping → Str
port_of pm = format_int pm.container_port ++ (b'/' ∷ map to_lower pm.protocol)

unfoldable pub bindings_of : Bool → List PortMapping → Dict (Str × Str) → Dict (Str × Str)
bindings_of bare [] m = m
bindings_of bare (pm ∷ pms) m = bindings_of bare pms (
    insert (port_of pm) (pm.host_ip, format_int (host_port_of bare pm.host_port pm.container_port))
      m)

abbrev pub is_bare : Dict Str → Bool
is_bare [] = true
is_bare (a ∷ m) = false

abbrev pub network_of : Option Str → Str
network_of none = str "bridge"
network_of (some n) = n

module _ (c : Codec) (prefix driver : Str) where
  -- The tags of a sandbox.
  unfoldable pub sandbox_builder : PodConfig → TagBuilder
  unfolding new_tag_builder
  sandbox_builder q = with_pod_sandbox_config c (some q.config) (
      set key_uid q.uid (
        set key_namespace q.config.namespace
          (set key_name q.config.name (set key_type type_sandbox (new_tag_builder prefix driver)))))

  unfoldable pub sandbox_labels : PodConfig → Dict Str
  sandbox_labels q =
      copy_contexts (full_key prefix key_security_context) (build c (sandbox_builder q)).1
        q.config.annotations

  unfoldable pub sandbox_wish : (Str → Option (List HostAlias)) → PodConfig → SandboxWish
  unfolding new_tag_builder with_tags
  sandbox_wish decode q =
      let annotations = q.config.annotations in
      let tb = with_tags annotations (new_tag_builder prefix driver) in
      let ns = options_of q.linux in
      let bindings =
        if on_node ns then [] else bindings_of (is_bare annotations) q.port_mappings [] in
      record {
        name = (build c (sandbox_builder q)).0;
        image = str "busybox";
        entrypoint = str "tail" ∷ str "-f" ∷ str "/dev/null" ∷ [];
        hostname = q.hostname;
        domainname = q.config.namespace ++ str ".svc.cluster.local";
        labels = sandbox_labels q;
        privileged = is_privileged q.linux;
        modes = modes_of ns;
        sysctls = sysctls_of q.linux;
        dns = dns_of q.dns_config;
        extra_hosts = compact (sort (extra_hosts decode tb));
        exposed_ports = map (λ e. e.0) bindings;
        port_bindings = bindings;
        networks =
            if on_node ns
            then []
            else network_of (lookup (full_key prefix key_network) annotations) ∷ [];
      }
