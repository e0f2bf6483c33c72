-- ===== src/Docker/Volumes/Tests.antt =====
-- Volumes on a concrete cluster and runtime, which are two maps.
use nanokube.Tags.Label.{normalize}
use nanokube.Prelude.{◌≡◌, refl, none, some, [], ◌∷◌, str, same, lookup, insert}
use nanokube.Tags.Builder.{
  Codec, empty_sandbox_config, empty_container_config, build, default_name, get, new_tag_builder,
  set,
}
use nanokube.Docker.Volumes.{
  Claim, Site, claim_tags, claim_volume, create_volume, release_volume, local_volume,
}
use nanokube.Docker.Volumes.Store.{Store, cluster, cluster-Keeps}
use nanokube.Docker.Volumes.Release.{LeavesNothing, release_volume-claim_volume}

abbrev codec : Codec
codec = record {
  encode_sandbox = λ x. str "P";
  decode_sandbox = λ s. empty_sandbox_config;
  encode_container = λ y. str "C";
  decode_container = λ s. empty_container_config;
}

abbrev site : Site
site = record {
  prefix = str "nanokube";
  driver = str "docker";
  backend = str "docker";
  node = str "node1";
}

abbrev data_claim : Claim
data_claim = record {
  namespace = str "prod";
  name = str "data";
  uid = str "u7";
  storage = str "1Gi";
  access_modes = str "ReadWriteOnce" ∷ [];
  storage_class = none;
  volume_name = [];
}

abbrev store : Store
store = record { pvs = []; volumes = (str "other", []) ∷ [] }

claim_tags_run : (claim_tags codec site data_claim).0 ≡ str "pvc-prod-data.nanokube"
unfolding claim_tags build same get lookup set insert new_tag_builder default_name normalize
claim_tags_run = refl

release_volume-claim_volume_example :
    ((claim_volume codec site cluster data_claim store).1
      ≡ some (record {
        labels = (claim_tags codec site data_claim).1;
        storage_class = [];
        volume_name = (claim_tags codec site data_claim).0;
      }))
    × LeavesNothing
        (λ s. s.pvs)
        (λ s. s.volumes)
        (claim_tags codec site data_claim).0
        store
        (release_volume codec site cluster
          (record data_claim {
            storage_class = some [];
            volume_name = (claim_tags codec site data_claim).0;
          })
          (create_volume codec site cluster
            (some (local_volume codec site data_claim))
            (claim_volume codec site cluster data_claim store).0).0)
release_volume-claim_volume_example =
    release_volume-claim_volume codec site cluster (λ s. s.pvs) (λ s. s.volumes) data_claim store
      cluster-Keeps refl refl

-- A claim on another volume is left alone.
foreign_run :
    release_volume codec site cluster
      (record data_claim { storage_class = some []; volume_name = str "other" })
      store
    ≡ (store, none)
unfolding release_volume same claim_tags build get lookup set insert new_tag_builder default_name
    normalize
foreign_run = refl

-- Claims of two namespaces may have one volume.
shared_run :
    (claim_tags codec site (record data_claim { namespace = str "prod"; name = str "web-data" })).0
    ≡ (claim_tags codec site
        (record data_claim { namespace = str "prod-web"; name = str "data" })).0
unfolding claim_tags
shared_run = refl
