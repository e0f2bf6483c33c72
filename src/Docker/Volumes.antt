-- ===== src/Docker/Volumes.antt =====
-- ClaimVolume, CreateVolume, DeleteVolume and ReleaseVolume of pkg/driver/docker/docker.go: a claim
-- on local storage gets a persistent volume of its own, which is a volume of the runtime.
pub mod Release
pub mod Store
mod Tests
use nanokube.Prelude.{
  ℕ, zero, suc, ◌+◌, ◌-◌, ◌*◌, ◌/◌, ◌%◌, ◌^◌, ◌≤◌, ◌<◌, ◌≡◌, refl, sym, ap, ◌∙◌, subst, ◌≢◌, ◌↔◌,
  ◌⊎◌, inl, inr, Bool, true, false, ◌&&◌, ◌||◌, not, Option, none, some, List, [], ◌∷◌, ◌++◌, map,
  arith, ltb, leb, ◌==◌, if◌then◌else◌, ltb→lt, lt→ltb, leb→le, ==_iff, Bool-cases, Option-cases,
  length, take, drop, length-append, length-drop, length-take, take-append, drop-append,
  take-append-drop, All, All-append, All-split, Str, str, same, same_iff, same_refl, same_ne,
  member, append_left_cancel, has_prefix, has_prefix-append, Dict, lookup, insert, copy_into, IsMap,
  insert-IsMap, or_else, lookup-copy_into, lookup-insert, lookup-insert_self, lookup-insert_ne,
  value_of, Returns, Returns-some, Result, ok, fail, Result-cases,
}
use nanokube.Tags.Builder.{
  Codec, TagBuilder, set, new_tag_builder, build, key_name, key_type, key_uid, type_volume,
}

pub record NodeExpression : Type 0 where
  pub key : Str
  pub operator : Str
  pub values : List Str

pub record LocalVolumeSource : Type 0 where
  pub path : Str
  -- a pointer, which may be nil
  pub fs_type : Option Str

-- The terms of the node affinity are `none` where it or its requirement is nil.
pub record PersistentVolume : Type 0 where
  pub name : Str
  pub labels : Dict Str
  pub storage_class : Str
  pub storage : Str
  pub access_modes : List Str
  pub reclaim_policy : Str
  pub local : Option LocalVolumeSource
  pub required : Option (List (List NodeExpression))

pub record Claim : Type 0 where
  pub namespace : Str
  pub name : Str
  pub uid : Str
  pub storage : Str
  pub access_modes : List Str
  pub storage_class : Option Str
  pub volume_name : Str

-- What ClaimVolume tells the caller to apply to the claim.
pub record ClaimUpdate : Type 0 where
  pub labels : Dict Str
  pub storage_class : Str
  pub volume_name : Str

pub data ApiError : Type 0 where
  api_not_found : ApiError
  api_error : Str → ApiError

-- The cluster's client for persistent volumes, and the runtime's for its volumes. Applying gives
-- the name of the persistent volume.
pub record Cluster (S : Type 0) : Type 0 where
  pub apply_pv : S → PersistentVolume → S × Result Str Str
  pub get_pv : S → Str → Result ApiError PersistentVolume
  pub delete_pv : S → Str → S × Option ApiError
  pub volume_create : S → Str → Dict Str → S × Option Str
  pub volume_remove : S → Str → S × Option ApiError

-- The driver's names: the options' and its own, the backend's, and the node's.
pub record Site : Type 0 where
  pub prefix : Str
  pub driver : Str
  pub backend : Str
  pub node : Str

abbrev pub claim_name : Claim → Str
claim_name q = str "pvc-" ++ (q.namespace ++ (b'-' ∷ q.name))

abbrev pub host_key : Str
host_key = str "kubernetes.io/hostname"

-- A thing that is not there is deleted already.
abbrev pub unless_missing : {S : Type 0} → S × Option ApiError → S × Option Str
unless_missing (s, none) = (s, none)
unless_missing (s, some api_not_found) = (s, none)
unless_missing (s, some (api_error e)) = (s, some e)

module _ (c : Codec) (site : Site) where
  -- The name and the labels of a claim's volume.
  unfoldable pub claim_tags : Claim → Str × Dict Str
  claim_tags q = build c (
      set key_uid q.uid (
        set key_name (claim_name q)
          (set key_type type_volume (new_tag_builder site.prefix site.driver))))

  abbrev pub local_volume : Claim → LocalVolumeSource
  local_volume q = record { path = (claim_tags q).0; fs_type = some site.backend }

  abbrev pub volume_for : Claim → PersistentVolume
  volume_for q = record {
    name = (claim_tags q).0;
    labels = (claim_tags q).1;
    storage_class = [];
    storage = q.storage;
    access_modes = q.access_modes;
    reclaim_policy = str "Delete";
    local = some (local_volume q);
    required =
        some ((record { key = host_key; operator = str "In"; values = site.node ∷ [] } ∷ []) ∷ []);
  }

  abbrev pub is_open : Claim → Bool
  is_open q = elim q.storage_class [ some sc ↦ false | none ↦ same q.volume_name [] ]

  abbrev pub is_ours : Claim → Bool
  is_ours q = elim q.storage_class [
    | none ↦ false
    | some sc ↦ same sc [] && same q.volume_name (claim_tags q).0
  ]

  unfoldable pub names_node : List NodeExpression → Bool
  names_node [] = false
  names_node (x ∷ xs) =
      (same x.key host_key && (same x.operator (str "In") && member site.node x.values))
      || names_node xs

  unfoldable pub some_term : List (List NodeExpression) → Bool
  unfolding names_node
  some_term [] = false
  some_term (t ∷ ts) = names_node t || some_term ts

  -- The volume is local, and for this node.
  abbrev pub is_here : PersistentVolume → Bool
  is_here pv = elim pv.local [
    | none ↦ false
    | some l ↦ elim pv.required [ none ↦ false | some ts ↦ some_term ts ]
  ]

  module _ {S : Type 0} (k : Cluster S) where
    abbrev pub applied : Dict Str → S × Result Str Str → S × Option ClaimUpdate
    applied labels (s, fail err) = (s, none)
    applied labels (s, ok name) =
        (s, some (record { labels = labels; storage_class = []; volume_name = name }))

    -- ClaimVolume.
    unfoldable pub claim_volume : Claim → S → S × Option ClaimUpdate
    claim_volume q s =
        if is_open q then applied (claim_tags q).1 (k.apply_pv s (volume_for q)) else (s, none)

    -- CreateVolume and DeleteVolume.
    unfoldable pub create_volume : Option LocalVolumeSource → S → S × Option Str
    create_volume none s = (s, some (str "local volume source is nil"))
    create_volume (some l) s =
        k.volume_create s l.path
          (build c (
            set key_name l.path
              (set key_type type_volume (new_tag_builder site.prefix site.driver)))).1

    unfoldable pub delete_volume : Option LocalVolumeSource → S → S × Option Str
    delete_volume none s = (s, some (str "local volume source is nil"))
    delete_volume (some l) s = unless_missing (k.volume_remove s l.path)

    abbrev pub then_delete : Str → S × Option Str → S × Option Str
    then_delete name (s, some err) = (s, some err)
    then_delete name (s, none) = unless_missing (k.delete_pv s name)

    abbrev pub without_data : PersistentVolume → S → S × Option Str
    without_data pv s = elim pv.local [
      | none ↦ (s, none)
      | some l ↦
          if same pv.reclaim_policy (str "Retain") then (s, none) else delete_volume (some l) s
    ]

    abbrev pub released : Str → S → Result ApiError PersistentVolume → S × Option Str
    released name s (fail api_not_found) = (s, none)
    released name s (fail (api_error e)) = (s, some e)
    released name s (ok pv) = if is_here pv then then_delete name (without_data pv s) else (s, none)

    -- ReleaseVolume.
    unfoldable pub release_volume : Claim → S → S × Option Str
    release_volume q s =
        if is_ours q then released (claim_tags q).0 s (k.get_pv s (claim_tags q).0) else (s, none)
