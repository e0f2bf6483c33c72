-- ===== src/Docker/Sandbox/Status.antt =====
-- PodSandboxStatus of pkg/driver/docker/docker.go: the state, the namespaces and the addresses of a
-- sandbox. A Go map is the list of its entries in the order in which it is gone over.
use nanokube.Prelude.{
  ℕ, Bool, true, false, ◌&&◌, ◌||◌, not, Option, none, some, List, [], ◌∷◌, if◌then◌else◌, Str, str,
  same, Dict,
}
use nanokube.Tags.Builder.{
  Codec, get, hydrate, labels, annotations, key_name, key_namespace, key_uid,
}
use nanokube.Docker.Listing.{SandboxState, sandbox_state}

pub record HostModes : Type 0 where
  pub network_mode : Str
  pub pid_mode : Str
  pub ipc_mode : Str

-- The addresses by network, and the host addresses of each published port's bindings.
pub record NetworkSettings : Type 0 where
  pub networks : Dict Str
  pub ports : List (List Str)

pub record SandboxInspect : Type 0 where
  pub id : Str
  pub created : Str
  pub labels : Dict Str
  pub status : Str
  pub host_config : Option HostModes
  pub network_settings : Option NetworkSettings

pub data NamespaceMode : Type 0 where
  mode_pod mode_container mode_node : NamespaceMode

pub record NamespaceOption : Type 0 where
  pub network : NamespaceMode
  pub pid : NamespaceMode
  pub ipc : NamespaceMode

pub record PodSandboxStatus : Type 0 where
  pub id : Str
  pub name : Str
  pub namespace : Str
  pub uid : Str
  pub state : SandboxState
  pub created_at : ℕ
  pub ip : Str
  pub additional_ips : List Str
  pub namespaces : NamespaceOption
  pub labels : Dict Str
  pub annotations : Dict Str

abbrev pub host_text : Str
host_text = str "host"

abbrev pub node_or : Str → NamespaceMode → NamespaceMode
node_or mode m = if same mode host_text then mode_node else m

abbrev pub namespaces_of : Option HostModes → NamespaceOption
namespaces_of none = record { network = mode_pod; pid = mode_container; ipc = mode_pod }
namespaces_of (some h) = record {
  network = node_or h.network_mode mode_pod;
  pid = node_or h.pid_mode mode_container;
  ipc = node_or h.ipc_mode mode_pod;
}

abbrev pub is_own_network : Str → Bool
is_own_network name =
    not (same name (str "bridge")) && not (same name host_text) && not (same name (str "none"))

-- The first address on a network of the pod's own.
unfoldable pub own_ip : Dict Str → Str
own_ip [] = []
own_ip ((name, ip) ∷ nets) =
    let later = own_ip nets in if is_own_network name && not (same ip []) then ip else later

abbrev pub loopback : Str
loopback = str "127.0.0.1"

unfoldable pub is_published : List Str → Bool
is_published [] = false
is_published (ip ∷ ips) = same ip [] || same ip (str "0.0.0.0") || is_published ips

unfoldable pub published_ip : List (List Str) → Str
published_ip [] = []
published_ip (bindings ∷ ports) =
    let later = published_ip ports in if is_published bindings then loopback else later

-- The first address on any network.
unfoldable pub any_ip : Dict Str → Str
any_ip [] = []
any_ip ((name, ip) ∷ nets) = let later = any_ip nets in if same ip [] then later else ip

abbrev pub or_ip : Str → Str → Str
or_ip ip other = if same ip [] then other else ip

abbrev pub settings_ip : Bool → NetworkSettings → Str
settings_ip annotated n =
    or_ip (or_ip (if annotated then own_ip n.networks else []) (published_ip n.ports))
      (any_ip n.networks)

abbrev pub on_host : Option HostModes → Bool
on_host none = false
on_host (some h) = same h.network_mode host_text

unfoldable pub primary_ip : Bool → Option HostModes → Option NetworkSettings → Str
primary_ip annotated h n =
    if on_host h then loopback else elim n [ none ↦ [] | some n ↦ settings_ip annotated n ]

abbrev pub is_passed_over : Str → Str → Str → Bool
is_passed_over primary name ip =
    same primary ip || same name host_text || same name (str "none") || same ip []

unfoldable pub other_ips : Str → Dict Str → List Str
other_ips primary [] = []
other_ips primary ((name, ip) ∷ nets) =
    let later = other_ips primary nets in
    if is_passed_over primary name ip then later else ip ∷ later

abbrev pub additional_ips : Str → Option NetworkSettings → List Str
additional_ips primary none = []
additional_ips primary (some n) = other_ips primary n.networks

abbrev pub is_annotated : Dict Str → Bool
is_annotated [] = false
is_annotated (a ∷ m) = true

-- `PodSandboxStatus` of what the runtime inspects, without what `verbose` adds.
unfoldable pub sandbox_status : Codec → Str → Str → (Str → ℕ) → SandboxInspect → PodSandboxStatus
sandbox_status c prefix driver unix_nano i =
    let tb = hydrate prefix driver i.labels in
    let ip = primary_ip (is_annotated (annotations c tb)) i.host_config i.network_settings in
    record {
      id = i.id;
      name = get tb key_name;
      namespace = get tb key_namespace;
      uid = get tb key_uid;
      state = sandbox_state i.status;
      created_at = unix_nano i.created;
      ip = ip;
      additional_ips = additional_ips ip i.network_settings;
      namespaces = namespaces_of i.host_config;
      labels = labels c tb;
      annotations = annotations c tb;
    }
