-- ===== src/Host/TearDown.antt =====
-- Tearing down the mounter of a local volume of the docker driver.
use nanokube.Tags.Builder.{Codec}
use nanokube.Docker.Volumes.{Cluster, Site, create_volume, delete_volume}
use nanokube.Host.{VolumeDriver}

-- The docker driver as the mounters see it.
abbrev pub volume_driver : {S : Type 0} → Codec → Site → Cluster S → VolumeDriver S
volume_driver c site k = record {
  create_volume = create_volume c site k;
  delete_volume = delete_volume c site k;
}
