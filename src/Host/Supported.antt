-- ===== src/Host/Supported.antt =====
-- Which mounters of supported volumes panic, and when.
use nanokube.Prelude.{◌≡◌, ◌↔◌, true, Option, some, List, [], ◌∷◌, Str, lookup}
use nanokube.Host.{
  Ending, returns, panics, VolumeSpec, VolumeDriver, Mounter, Host, Kind, of_backend, kind_of,
  can_support, new_mounter, new_unmounter, get_path, get_attributes, set_up, tear_down,
}

abbrev pub IsReturned {ℓ} : {A : Type ℓ} → Ending A → Type 0
IsReturned panics = ⊥
IsReturned (returns a) = Unit

pub data Call : Type 0 where
  mounts : VolumeSpec → Str → Call
  unmounts : Str → Str → Call

abbrev pub host_after : Host → Ending (Host × Mounter) → Host
host_after h panics = h
host_after h (returns r) = r.0

unfoldable pub step : Host → Call → Host
step h (mounts spec uid) = (new_mounter spec uid h).0
step h (unmounts name uid) = host_after h (new_unmounter name uid h)

unfoldable pub history : Host → List Call → Host
unfolding step
history h [] = h
history h (c ∷ cs) = history (step h c) cs

abbrev pub new_host : Host
new_host = record { mounters = []; unmounters = [] }

-- A mounter is asked for only where CanSupport says so.
abbrev pub AsksSupported : Call → Type 0
AsksSupported (mounts spec uid) = can_support spec ≡ true
AsksSupported (unmounts name uid) = Unit

record Inv (h : Host) : Type 0 where
  supported : (key : Str) (m : Mounter) → lookup key h.mounters ≡ some m → can_support m.spec ≡ true
  paired :
      (key : Str) (u : Mounter) → lookup key h.unmounters ≡ some u → lookup key h.mounters ≡ some u

-- A local source says which file system it has.
abbrev pub IsTyped : Kind → Type 0
IsTyped (of_backend pv l) = (fs_type : Str) × (l.fs_type ≡ some fs_type)
IsTyped _ = Unit

-- What a supported mounter promises: its path and its attributes are told, and SetUp and TearDown
-- return for a host path and for a local source that names its type, and panic for no other.
pub record Works {S : Type 0} (backend : Str → Option (VolumeDriver S)) (m : Mounter) : Type 0 where
  pub path : IsReturned (get_path m)
  pub attributes : IsReturned (get_attributes m)
  pub up : (s : S) → IsReturned (set_up backend m s) ↔ IsTyped (kind_of m.spec)
  pub down : (s : S) → IsReturned (tear_down backend m s) ↔ IsTyped (kind_of m.spec)

-- What the host gives for a supported volume of a pod.
pub record Serves {S : Type 0} (backend : Str → Option (VolumeDriver S)) (h : Host)
    (spec : VolumeSpec) (uid : Str) : Type 0 where
  pub works : Works backend (new_mounter spec uid h).1
  pub after_unmounter : Host
  pub unmounter :
      new_unmounter spec.name uid (new_mounter spec uid h).0
      ≡ returns (after_unmounter, (new_mounter spec uid h).1)
