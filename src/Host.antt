-- ===== src/Host.antt =====
-- The mounters of pkg/nanokube/host.go: host paths, and local volumes of a backend. A local source
-- names its backend; a pod is its uid.
pub mod Supported
pub mod TearDown
mod Tests
use nanokube.Prelude.{
  ℕ, zero, suc, ◌+◌, ◌-◌, ◌*◌, ◌/◌, ◌%◌, ◌^◌, ◌≤◌, ◌<◌, ◌≡◌, refl, sym, ap, ◌∙◌, subst, ◌≢◌, ◌↔◌,
  ◌⊎◌, inl, inr, Bool, true, false, ◌&&◌, ◌||◌, not, Option, none, some, List, [], ◌∷◌, ◌++◌, map,
  arith, ltb, leb, ◌==◌, if◌then◌else◌, ltb→lt, lt→ltb, leb→le, ==_iff, Bool-cases, Option-cases,
  length, take, drop, length-append, length-drop, length-take, take-append, drop-append,
  take-append-drop, All, All-append, All-split, Str, str, same, same_iff, same_refl, same_ne,
  member, append_left_cancel, has_prefix, has_prefix-append, Dict, lookup, insert, copy_into, IsMap,
  insert-IsMap, or_else, lookup-copy_into, lookup-insert, lookup-insert_self, lookup-insert_ne,
  value_of, Returns, Returns-some, Result, ok, fail, Result-cases,
}
use nanokube.Docker.Volumes.{PersistentVolume, LocalVolumeSource}

-- What a call comes to, where the source may panic.
pub data Ending {ℓ} (A : Type ℓ) : Type ℓ where
  returns : A → Ending A
  panics : Ending A

-- `volume.Spec`: a volume of the pod is its host path, if it has one.
pub record VolumeSpec : Type 0 where
  pub name : Str
  pub read_only : Bool
  pub host_path : Option Str
  pub persistent_volume : Option PersistentVolume

-- The part of `v1.Driver` that the mounters call.
pub record VolumeDriver (S : Type 0) : Type 0 where
  pub create_volume : Option LocalVolumeSource → S → S × Option Str
  pub delete_volume : Option LocalVolumeSource → S → S × Option Str

pub record Attributes : Type 0 where
  pub read_only : Bool
  pub managed : Bool
  pub selinux_relabel : Bool

pub record Mounter : Type 0 where
  pub spec : VolumeSpec
  pub pod_uid : Str

-- The two tables of `HostImpl`.
pub record Host : Type 0 where
  pub mounters : Dict Mounter
  pub unmounters : Dict Mounter

-- The kinds of a volume that the branches of every method tell apart.
pub data Kind : Type 0 where
  of_host : Str → Kind
  of_backend : PersistentVolume → LocalVolumeSource → Kind
  of_neither : Kind

abbrev pub kind_by : Option Str → Option PersistentVolume → Kind
kind_by (some path) _ = of_host path
kind_by none none = of_neither
kind_by none (some pv) = elim pv.local [ none ↦ of_neither | some l ↦ of_backend pv l ]

abbrev pub kind_of : VolumeSpec → Kind
kind_of spec = kind_by spec.host_path spec.persistent_volume

abbrev pub supports : Kind → Bool
supports of_neither = false
supports _ = true

-- CanSupport.
unfoldable pub can_support : VolumeSpec → Bool
can_support spec = supports (kind_of spec)

abbrev pub mount_key : Str → Str → Str
mount_key name uid = name ++ (b'-' ∷ uid)

-- `LoadOrStore`, with the value that is in the table then.
abbrev pub load_or_keep : Str → Mounter → Option Mounter → Dict Mounter → Dict Mounter × Mounter
load_or_keep key m none table = (insert key m table, m)
load_or_keep key m (some old) table = (table, old)

-- NewMounter.
unfoldable pub new_mounter : VolumeSpec → Str → Host → Host × Mounter
new_mounter spec uid h =
    let key = mount_key spec.name uid in
    let (table, m) =
      load_or_keep key (record { spec = spec; pod_uid = uid }) (lookup key h.mounters) h.mounters in
    (record h { mounters = table }, m)

-- NewUnmounter; it casts the mounter before it looks for an unmounter.
abbrev pub unmounter_of : Str → Host → Option Mounter → Ending (Host × Mounter)
unmounter_of key h none = panics
unmounter_of key h (some m) =
    let (table, u) = load_or_keep key m (lookup key h.unmounters) h.unmounters in
    returns (record h { unmounters = table }, u)

unfoldable pub new_unmounter : Str → Str → Host → Ending (Host × Mounter)
new_unmounter name uid h =
    unmounter_of (mount_key name uid) h (lookup (mount_key name uid) h.mounters)

-- GetPath.
abbrev pub path_by : Kind → Ending Str
path_by (of_host path) = returns path
path_by (of_backend pv l) = returns l.path
path_by of_neither = panics

unfoldable pub get_path : Mounter → Ending Str
get_path m = path_by (kind_of m.spec)

-- GetAttributes.
abbrev pub attributes_by : Bool → Kind → Ending Attributes
attributes_by ro of_neither = panics
attributes_by ro _ = returns (record { read_only = ro; managed = true; selinux_relabel = false })

unfoldable pub get_attributes : Mounter → Ending Attributes
get_attributes m = attributes_by m.spec.read_only (kind_of m.spec)

abbrev pub no_backend : Str → Str
no_backend fs_type = str "no backend found for local volume with fstype " ++ fs_type

module _ {S : Type 0} where
  abbrev pub set_up_on :
      Str → LocalVolumeSource → S → Option (VolumeDriver S) → Ending (S × Option Str)
  set_up_on fs_type l s none = returns (s, some (no_backend fs_type))
  set_up_on fs_type l s (some d) = returns (d.create_volume (some l) s)

  abbrev pub tear_down_on :
      Str
      → PersistentVolume
      → LocalVolumeSource
      → S
      → Option (VolumeDriver S)
      → Ending (S × Option Str)
  tear_down_on fs_type pv l s none = returns (s, some (no_backend fs_type))
  tear_down_on fs_type pv l s (some d) =
      if same pv.reclaim_policy (str "Retain")
      then returns (s, none)
      else returns (d.delete_volume (some l) s)

module _ {S : Type 0} (backend : Str → Option (VolumeDriver S)) where
  -- SetUp; it reads the pointer to the file system's type unchecked.
  abbrev pub set_up_typed : LocalVolumeSource → S → Option Str → Ending (S × Option Str)
  set_up_typed l s none = panics
  set_up_typed l s (some fs_type) = set_up_on fs_type l s (backend fs_type)

  abbrev pub set_up_by : S → Kind → Ending (S × Option Str)
  set_up_by s (of_host path) = returns (s, none)
  set_up_by s (of_backend pv l) = set_up_typed l s l.fs_type
  set_up_by s of_neither = panics

  unfoldable pub set_up : Mounter → S → Ending (S × Option Str)
  set_up m s = set_up_by s (kind_of m.spec)

  -- TearDown, with the same pointer.
  abbrev pub tear_down_typed :
      PersistentVolume → LocalVolumeSource → S → Option Str → Ending (S × Option Str)
  tear_down_typed pv l s none = panics
  tear_down_typed pv l s (some fs_type) = tear_down_on fs_type pv l s (backend fs_type)

  abbrev pub tear_down_by : S → Kind → Ending (S × Option Str)
  tear_down_by s (of_host path) = returns (s, none)
  tear_down_by s (of_backend pv l) = tear_down_typed pv l s l.fs_type
  tear_down_by s of_neither = panics

  unfoldable pub tear_down : Mounter → S → Ending (S × Option Str)
  tear_down m s = tear_down_by s (kind_of m.spec)
