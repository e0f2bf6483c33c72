-- ===== src/Tags/Builder.antt =====
-- TagBuilder of pkg/nanokube/tags.go. The two configs are what the tags read of them; their codec
-- (JSON in base64) is a parameter. A nil map reads as an empty one.
pub mod Reading
use nanokube.Prelude.{
  ℕ, zero, suc, ◌+◌, ◌-◌, ◌*◌, ◌/◌, ◌%◌, ◌^◌, ◌≤◌, ◌<◌, ◌≡◌, refl, sym, ap, ◌∙◌, subst, ◌≢◌, ◌↔◌,
  ◌⊎◌, inl, inr, Bool, true, false, ◌&&◌, ◌||◌, not, Option, none, some, List, [], ◌∷◌, ◌++◌, map,
  arith, ltb, leb, ◌==◌, if◌then◌else◌, ltb→lt, lt→ltb, leb→le, ==_iff, Bool-cases, Option-cases,
  length, take, drop, length-append, length-drop, length-take, take-append, drop-append,
  take-append-drop, All, All-append, All-split, Str, str, same, same_iff, same_refl, same_ne,
  append_left_cancel, has_prefix, has_prefix-append, Dict, lookup, insert, copy_into, lookup-insert,
  lookup-insert_self, lookup-insert_ne, value_of, Returns, Returns-some, Result, ok, fail,
  Result-cases,
}
use nanokube.Tags.Label.{normalize}
use nanokube.Tags.Decimal.{decimal, parse_uint32}

-- `ResourceType`; a tag may hold any text.
abbrev pub type_unknown : Str
type_unknown = str "unknown"

abbrev pub type_sandbox : Str
type_sandbox = str "sandbox"

abbrev pub type_container : Str
type_container = str "container"

abbrev pub type_volume : Str
type_volume = str "volume"

abbrev pub type_network : Str
type_network = str "network"

abbrev pub key_managed_by : Str
key_managed_by = str "managed-by"

abbrev pub key_type : Str
key_type = str "type"

abbrev pub key_name : Str
key_name = str "name"

abbrev pub key_namespace : Str
key_namespace = str "namespace"

abbrev pub key_uid : Str
key_uid = str "uid"

abbrev pub key_sandbox_uid : Str
key_sandbox_uid = str "sandbox-uid"

abbrev pub key_attempt : Str
key_attempt = str "attempt"

abbrev pub key_sandbox_config : Str
key_sandbox_config = str "sandbox-config"

abbrev pub key_container_config : Str
key_container_config = str "container-config"

abbrev pub key_dns_aliases : Str
key_dns_aliases = str "dns-aliases"

abbrev pub key_host_aliases : Str
key_host_aliases = str "host-aliases"

abbrev pub key_security_context : Str
key_security_context = str "security-context"

-- The parts of `PodSandboxConfig` and `ContainerConfig` that the tags read.
pub record SandboxConfig : Type 0 where
  pub name : Str
  pub namespace : Str
  pub log_directory : Str
  pub labels : Dict Str
  pub annotations : Dict Str

pub record ContainerConfig : Type 0 where
  pub log_path : Str
  pub labels : Dict Str
  pub annotations : Dict Str

-- `json` behind `base64.RawURLEncoding`: decoding gives what Unmarshal leaves in an empty config.
pub record Codec : Type 0 where
  pub encode_sandbox : SandboxConfig → Str
  pub decode_sandbox : Str → SandboxConfig
  pub encode_container : ContainerConfig → Str
  pub decode_container : Str → ContainerConfig

abbrev pub empty_sandbox_config : SandboxConfig
empty_sandbox_config = record {
  name = [];
  namespace = [];
  log_directory = [];
  labels = [];
  annotations = [];
}

abbrev pub empty_container_config : ContainerConfig
empty_container_config = record { log_path = []; labels = []; annotations = [] }

pub record TagBuilder : Type 0 where
  pub prefix : Str
  pub tags : Dict Str

abbrev pub full_key : Str → Str → Str
full_key prefix key = prefix ++ (b'.' ∷ key)

unfoldable pub get : TagBuilder → Str → Str
get b key = value_of (lookup (full_key b.prefix key) b.tags)

unfoldable pub set : Str → Str → TagBuilder → TagBuilder
set key value b = record b { tags = insert (full_key b.prefix key) value b.tags }

unfoldable pub new_tag_builder : Str → Str → TagBuilder
unfolding set
new_tag_builder options_name driver_name =
    set key_type type_unknown
      (set key_managed_by driver_name (record { prefix = options_name; tags = [] }))

unfoldable pub with_tags : Dict Str → TagBuilder → TagBuilder
with_tags tags b = record b { tags = copy_into b.tags tags }

-- `WithAttempt`, of a 32-bit number.
abbrev pub with_attempt : ℕ → TagBuilder → TagBuilder
with_attempt n b = set key_attempt (decimal n) b

abbrev pub attempt : TagBuilder → ℕ
attempt b = parse_uint32 (get b key_attempt)

-- The sum is a 64-bit one of a 32-bit number and one: it does not wrap.
unfoldable pub increment_attempt : TagBuilder → TagBuilder
increment_attempt b = set key_attempt (decimal (attempt b + 1)) b

abbrev pub is_managed : TagBuilder → Bool
is_managed b = not (same (get b key_managed_by) [])

unfoldable pub security_context_for : Str → TagBuilder → Str
security_context_for name b =
    let sc = get b (key_security_context ++ (b'/' ∷ name)) in
    if same sc [] then get b key_security_context else sc

-- `strings.Split(v, ",")`.
unfoldable pub split_commas : Str → List Str
split_commas [] = [] ∷ []
split_commas (c ∷ cs) =
    if c == b','
    then [] ∷ split_commas cs
    else elim (split_commas cs) [ [] ↦ (c ∷ []) ∷ [] | p ∷ ps ↦ (c ∷ p) ∷ ps ]

unfoldable pub dns_aliases : TagBuilder → List Str
dns_aliases b = if same (get b key_dns_aliases) [] then [] else split_commas (get b key_dns_aliases)

-- `ExtraHosts`, with the JSON decoding as a parameter: `none` where it fails.
pub record HostAlias : Type 0 where
  pub ip : Str
  pub hostnames : List Str

unfoldable pub host_lines : List HostAlias → List Str
host_lines [] = []
host_lines (e ∷ es) = map (λ h. h ++ (b':' ∷ e.ip)) e.hostnames ++ host_lines es

abbrev pub decoded_hosts : Option (List HostAlias) → List Str
decoded_hosts none = []
decoded_hosts (some es) = host_lines es

unfoldable pub extra_hosts : (Str → Option (List HostAlias)) → TagBuilder → List Str
extra_hosts decode b =
    let v = get b key_host_aliases in if same v [] then [] else decoded_hosts (decode v)

abbrev pub is_internal : Str → Bool
is_internal key =
    same key key_managed_by
    || same key key_type
    || same key key_name
    || same key key_namespace
    || same key key_uid
    || same key key_sandbox_uid
    || same key key_attempt

-- `InternalTags` keeps an entry that is not empty, has the prefix, and is internal behind it.
abbrev pub keeps : Str → Str → Str → Bool
keeps prefix k v =
    not (same v [])
    && has_prefix k (prefix ++ (b'.' ∷ []))
    && is_internal (drop (length (prefix ++ (b'.' ∷ []))) k)

unfoldable pub internal_entries : Str → Dict Str → Dict Str
internal_entries prefix [] = []
internal_entries prefix ((k, v) ∷ m) =
    let rest = internal_entries prefix m in if keeps prefix k v then (k, v) ∷ rest else rest

abbrev pub internal_tags : TagBuilder → Dict Str
internal_tags b = internal_entries b.prefix b.tags

module _ (c : Codec) where
  unfoldable pub pod_sandbox_config : TagBuilder → SandboxConfig
  pod_sandbox_config b =
      let blob = get b key_sandbox_config in
      if same blob [] then empty_sandbox_config else c.decode_sandbox blob

  unfoldable pub container_config : TagBuilder → ContainerConfig
  container_config b =
      let blob = get b key_container_config in
      if same blob [] then empty_container_config else c.decode_container blob

  abbrev pub with_pod_sandbox_config : Option SandboxConfig → TagBuilder → TagBuilder
  with_pod_sandbox_config none b = b
  with_pod_sandbox_config (some config) b = set key_sandbox_config (c.encode_sandbox config) b

  abbrev pub with_container_config : Option ContainerConfig → TagBuilder → TagBuilder
  with_container_config none b = b
  with_container_config (some config) b = set key_container_config (c.encode_container config) b

  -- `LogPath`; `join` is filepath.Join of two texts that are not empty.
  unfoldable pub log_path : (Str → Str → Str) → TagBuilder → Str
  log_path join b =
      let dir = (pod_sandbox_config b).log_directory in
      let path = (container_config b).log_path in
      if same dir [] || same path [] then [] else join dir path

  unfoldable pub labels : TagBuilder → Dict Str
  labels b =
      if same (get b key_type) type_container
      then (container_config b).labels
      else if same (get b key_type) type_sandbox
      then (pod_sandbox_config b).labels
      else []

  unfoldable pub annotations : TagBuilder → Dict Str
  annotations b =
      if same (get b key_type) type_container
      then (container_config b).annotations
      else if same (get b key_type) type_sandbox
      then (pod_sandbox_config b).annotations
      else []

  -- The pod's part of a name.
  abbrev pub pod_suffix : TagBuilder → Str
  pod_suffix b = b'.' ∷ ((pod_sandbox_config b).name ++ (b'.' ∷ (pod_sandbox_config b).namespace))

  -- The name of any other resource.
  unfoldable pub default_name : TagBuilder → Str
  default_name b =
      let base = normalize (get b key_name) in
      let tried =
        if same (get b key_attempt) [] then base else base ++ (b'-' ∷ get b key_attempt) in
      let t = get b key_type in
      let typed =
        if same t type_container || same t type_volume then tried else tried ++ (b'-' ∷ t) in
      let namespace = normalize (get b key_namespace) in
      let spaced = if same namespace [] then typed else typed ++ (b'.' ∷ namespace) in
      spaced ++ (b'.' ∷ normalize b.prefix)

  -- `Build`; it never fails.
  unfoldable pub build : TagBuilder → Str × Dict Str
  build b = (
    if same (get b key_type) type_sandbox
        then str "sandbox-0" ++ pod_suffix b
        else if same (get b key_type) type_container
        then get b key_name ++ (b'-' ∷ (get b key_attempt ++ pod_suffix b))
        else default_name b,
    b.tags,
  )

  -- The tags that the docker driver puts on a container, and the builder that it reads them with.
  unfoldable pub container_builder :
      Str → Str → Str → Str → ℕ → ContainerConfig → SandboxConfig → TagBuilder
  unfolding new_tag_builder
  container_builder prefix driver name sandbox_id n config sandbox_config =
      with_pod_sandbox_config (some sandbox_config) (
        with_container_config (some config) (
          with_attempt n (
            set key_sandbox_uid sandbox_id
              (set key_name name (set key_type type_container (new_tag_builder prefix driver))))))

unfoldable pub hydrate : Str → Str → Dict Str → TagBuilder
unfolding new_tag_builder with_tags
hydrate prefix driver tags = with_tags tags (new_tag_builder prefix driver)
