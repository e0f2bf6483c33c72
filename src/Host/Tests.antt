-- ===== src/Host/Tests.antt =====
-- Mounters of a concrete host.
use nanokube.Prelude.{
  ◌≡◌, refl, true, false, Option, none, some, [], ◌∷◌, if◌then◌else◌, Str, str, same, lookup,
}
use nanokube.Tags.Builder.{Codec, empty_sandbox_config, empty_container_config}
use nanokube.Docker.Volumes.{PersistentVolume, LocalVolumeSource, Site}
use nanokube.Docker.Volumes.Store.{Store, cluster}
use nanokube.Host.{panics, VolumeSpec, VolumeDriver, Mounter, new_unmounter}
use nanokube.Host.TearDown.{volume_driver}
use nanokube.Host.Supported.{new_host}

abbrev codec : Codec
codec = record {
  encode_sandbox = λ x. str "P";
  decode_sandbox = λ s. empty_sandbox_config;
  encode_container = λ y. str "C";
  decode_container = λ s. empty_container_config;
}

abbrev site : Site
site = record {
  prefix = str "nanokube";
  driver = str "docker";
  backend = str "docker";
  node = str "node1";
}

abbrev backend : Str → Option (VolumeDriver Store)
backend name = if same name (str "docker") then some (volume_driver codec site cluster) else none

abbrev local : LocalVolumeSource
local = record { path = str "pv1"; fs_type = some (str "docker") }

abbrev pv : PersistentVolume
pv = record {
  name = str "pv1";
  labels = [];
  storage_class = [];
  storage = str "1Gi";
  access_modes = [];
  reclaim_policy = str "Delete";
  local = some local;
  required = none;
}

abbrev data_spec : VolumeSpec
data_spec = record {
  name = str "pv1";
  read_only = false;
  host_path = none;
  persistent_volume = some pv;
}

abbrev home_spec : VolumeSpec
home_spec = record {
  name = str "home";
  read_only = true;
  host_path = some (str "/home");
  persistent_volume = none;
}

abbrev store : Store
store = record { pvs = (str "pv1", pv) ∷ []; volumes = (str "pv1", []) ∷ (str "pv2", []) ∷ [] }

abbrev mounter : Mounter
mounter = record { spec = data_spec; pod_uid = str "u1" }

-- A new host knows no mounter: after a restart NewUnmounter panics.
new_unmounter_run : new_unmounter (str "pv1") (str "u1") new_host ≡ panics
unfolding new_unmounter lookup
new_unmounter_run = refl
