-- ===== src/Docker/Volumes/Release.antt =====
-- A claim that is released leaves nothing behind.
use nanokube.Prelude.{
  ◌≡◌, refl, ap, ◌∙◌, Bool, true, false, Option, none, some, [], ◌∷◌, arith, if◌then◌else◌, Str,
  same, same_refl, Dict, lookup, Result, ok, fail,
}
use nanokube.Tags.Builder.{Codec, set, new_tag_builder, build, key_name, key_type, type_volume}
use nanokube.Docker.Volumes.{
  PersistentVolume, LocalVolumeSource, Claim, ClaimUpdate, ApiError, api_not_found, api_error,
  Cluster, Site, claim_tags, volume_for, local_volume, claim_volume, create_volume, delete_volume,
  release_volume, is_here, names_node, some_term, released, applied, then_delete, unless_missing,
}

abbrev pub pv_found : Option PersistentVolume → Result ApiError PersistentVolume
pv_found none = fail api_not_found
pv_found (some pv) = ok pv

abbrev pub NoRefusal : Option ApiError → Type 0
NoRefusal (some (api_error e)) = ⊥
NoRefusal _ = Unit

-- A cluster and a runtime, seen by the persistent volumes and the volumes that they hold: each call
-- does what it is asked to, and changes nothing else.
pub record Keeps {S : Type 0} (k : Cluster S) (pvs : S → Dict PersistentVolume)
    (volumes : S → Dict (Dict Str)) : Type 0 where
  pub applies :
      (s : S) (pv : PersistentVolume) (j : Str)
      → ((k.apply_pv s pv).1 ≡ ok pv.name)
        × (lookup j (pvs (k.apply_pv s pv).0)
            ≡ (if same pv.name j then some pv else lookup j (pvs s)))
        × (volumes (k.apply_pv s pv).0 ≡ volumes s)
  pub gets : (s : S) (name : Str) → k.get_pv s name ≡ pv_found (lookup name (pvs s))
  pub deletes :
      (s : S) (name j : Str)
      → (lookup j (pvs (k.delete_pv s name).0) ≡ (if same name j then none else lookup j (pvs s)))
        × (volumes (k.delete_pv s name).0 ≡ volumes s)
  pub deletes_fine : (s : S) (name : Str) → NoRefusal (k.delete_pv s name).1
  pub creates :
      (s : S) (name : Str) (labels : Dict Str) (j : Str)
      → (lookup j (volumes (k.volume_create s name labels).0)
          ≡ (if same name j then some labels else lookup j (volumes s)))
        × (pvs (k.volume_create s name labels).0 ≡ pvs s)
  pub removes :
      (s : S) (name j : Str)
      → (lookup j (volumes (k.volume_remove s name).0)
          ≡ (if same name j then none else lookup j (volumes s)))
        × (pvs (k.volume_remove s name).0 ≡ pvs s)
  pub removes_fine : (s : S) (name : Str) → NoRefusal (k.volume_remove s name).1

unless_missing-fine :
    {S : Type 0} (s : S) (err : Option ApiError)
    → NoRefusal err
    → unless_missing (s, err) ≡ (s, none)
unless_missing-fine s none h = refl
unless_missing-fine s (some api_not_found) h = refl
unless_missing-fine s (some (api_error e)) h = absurd h

module _ (c : Codec) (site : Site) where
  volume_for-is_here : (q : Claim) → is_here c site (volume_for c site q) ≡ true
  unfolding names_node some_term same
  volume_for-is_here q = ground (arith, same_refl site.node)

module _ {S : Type 0} (c : Codec) (site : Site) (k : Cluster S) (pvs : S → Dict PersistentVolume)
    (volumes : S → Dict (Dict Str)) (law : Keeps k pvs volumes) where
  -- The claim, with what ClaimVolume has told to apply to it.
  abbrev pub bound : Claim → Claim
  bound q = record q { storage_class = some []; volume_name = (claim_tags c site q).0 }

  bound-tags : (q : Claim) → claim_tags c site (bound q) ≡ claim_tags c site q
  unfolding claim_tags
  bound-tags q = refl

  pub delete_volume-fine :
      (l : LocalVolumeSource) (s : S)
      → delete_volume c site k (some l) s ≡ ((k.volume_remove s l.path).0, none)
  unfolding delete_volume
  delete_volume-fine l s =
      unless_missing-fine (k.volume_remove s l.path).0 (k.volume_remove s l.path).1
        (law.removes_fine s l.path)

  released-volume_for :
      (q : Claim) (s : S) (name : Str)
      → released c site k name s (ok (volume_for c site q))
        ≡ ((k.delete_pv (k.volume_remove s (claim_tags c site q).0).0 name).0, none)
  unfolding same
  released-volume_for q s name = rw (volume_for-is_here c site q) (
      ap (then_delete c site k name) (delete_volume-fine (local_volume c site q) s)
      ∙ unless_missing-fine _ _ (law.deletes_fine _ name))

  release_volume-bound :
      (q : Claim) (s : S)
      → lookup (claim_tags c site q).0 (pvs s) ≡ some (volume_for c site q)
      → release_volume c site k (bound q) s ≡ (
        (k.delete_pv (k.volume_remove s (claim_tags c site q).0).0 (claim_tags c site q).0).0,
        none,
      )
  unfolding release_volume same
  release_volume-bound q s there =
      let name = (claim_tags c site q).0 in
      ap (λ t. if same name t.0 then released c site k t.0 s (k.get_pv s t.0) else (s, none))
        (bound-tags q)
      ∙ ap (λ b. if b then released c site k name s (k.get_pv s name) else (s, none))
          (same_refl name)
      ∙ ap (released c site k name s) (law.gets s name ∙ ap pv_found there)
      ∙ released-volume_for q s name

  applied-ok :
      (labels : Dict Str) (name : Str) (x : S × Result Str Str)
      → x.1 ≡ ok name
      → applied c site k labels x
        ≡ (x.0, some (record { labels = labels; storage_class = []; volume_name = name }))
  applied-ok labels name (s, ok n) h = ap (applied c site k labels) (ap (λ r. (s, r)) h)
  applied-ok labels name (s, fail err) h = cc

  claim_volume-open :
      (q : Claim) (s : S)
      → q.storage_class ≡ none
      → q.volume_name ≡ []
      → claim_volume c site k q s ≡ (
        (k.apply_pv s (volume_for c site q)).0,
        some (record {
          labels = (claim_tags c site q).1;
          storage_class = [];
          volume_name = (claim_tags c site q).0;
        }),
      )
  unfolding claim_volume same
  claim_volume-open q s no_class unnamed =
      ap
        (λ (b : Bool).
          if b
          then applied c site k (claim_tags c site q).1 (k.apply_pv s (volume_for c site q))
          else (s, none))
        (opened q.storage_class q.volume_name no_class unnamed)
      ∙ applied-ok (claim_tags c site q).1 (claim_tags c site q).0
          (k.apply_pv s (volume_for c site q)) (law.applies s (volume_for c site q) []).0
    where
      opened :
          (o : Option Str) (n : Str)
          → o ≡ none
          → n ≡ []
          → elim o [ some sc ↦ false | none ↦ same n [] ] ≡ true
      opened none [] h g = refl
      opened none (x ∷ n) h g = cc
      opened (some sc) n h g = cc

-- What is told and left after a claim, the creation of its volume, and its release.
pub record LeavesNothing {S : Type 0} (pvs : S → Dict PersistentVolume)
    (volumes : S → Dict (Dict Str)) (name : Str) (before : S) (out : S × Option Str) : Type 0 where
  pub no_error : out.1 ≡ none
  pub pvs_left :
      (j : Str) → lookup j (pvs out.0) ≡ (if same name j then none else lookup j (pvs before))
  pub volumes_left :
      (j : Str)
      → lookup j (volumes out.0) ≡ (if same name j then none else lookup j (volumes before))

if_twice :
    {A : Type 0} (b : Bool) (x : A) (o : Option A)
    → (if b then none else if b then some x else o) ≡ (if b then none else o)
if_twice true x o = refl
if_twice false x o = refl

-- ClaimVolume of a claim with neither a class nor a volume binds it to a volume of its own; once
-- that volume is created, ReleaseVolume of the bound claim succeeds and leaves neither the
-- persistent volume nor the volume, and everything else as it was before the claim. The cluster and
-- the runtime do what they are asked to.
pub release_volume-claim_volume :
    {S : Type 0} (c : Codec) (site : Site) (k : Cluster S) (pvs : S → Dict PersistentVolume)
    (volumes : S → Dict (Dict Str)) (q : Claim) (s : S)
    → Keeps k pvs volumes
    → q.storage_class ≡ none
    → q.volume_name ≡ []
    → ((claim_volume c site k q s).1
        ≡ some (record {
          labels = (claim_tags c site q).1;
          storage_class = [];
          volume_name = (claim_tags c site q).0;
        }))
      × LeavesNothing pvs volumes (claim_tags c site q).0 s (
          release_volume c site k
            (record q { storage_class = some []; volume_name = (claim_tags c site q).0 })
            (create_volume c site k (some (local_volume c site q)) (claim_volume c site k q s).0).0)
unfolding create_volume
release_volume-claim_volume {S = S} c site k pvs volumes q s law no_class unnamed =
    let name = (claim_tags c site q).0 in
    let pv = volume_for c site q in
    let claimed = (k.apply_pv s pv).0 in
    let labels =
      (build c (
        set key_name name
          (set key_type type_volume (new_tag_builder site.prefix site.driver)))).1 in
    let made = (k.volume_create claimed name labels).0 in
    let opened = claim_volume-open c site k pvs volumes law q s no_class unnamed in
    let after : release_volume c site k (bound c site k pvs volumes law q)
          (create_volume c site k (some (local_volume c site q)) (claim_volume c site k q s).0).0
        ≡ ((k.delete_pv (k.volume_remove made name).0 name).0, none) =
      ap
        (λ (x : S × Option ClaimUpdate).
          release_volume c site k (bound c site k pvs volumes law q)
            (k.volume_create x.0 name labels).0)
        opened
      ∙ release_volume-bound c site k pvs volumes law q made (
          ap (lookup name) (law.creates claimed name labels name).1
          ∙ (law.applies s pv name).1
          ∙ ap (λ (b : Bool). if b then some pv else lookup name (pvs s)) (same_refl name)) in
    (
      ap (λ (x : S × Option ClaimUpdate). x.1) opened,
      record {
        no_error = ap (λ (x : S × Option Str). x.1) after;
        pvs_left = λ j.
            ap (λ (x : S × Option Str). lookup j (pvs x.0)) after
            ∙ (law.deletes (k.volume_remove made name).0 name j).0
            ∙ ap (λ (m : Dict PersistentVolume). if same name j then none else lookup j m)
                ((law.removes made name j).1 ∙ (law.creates claimed name labels j).1)
            ∙ ap (λ (o : Option PersistentVolume). if same name j then none else o)
                (law.applies s pv j).1
            ∙ if_twice (same name j) pv (lookup j (pvs s));
        volumes_left = λ j.
            ap (λ (x : S × Option Str). lookup j (volumes x.0)) after
            ∙ ap (lookup j) (law.deletes (k.volume_remove made name).0 name j).1
            ∙ (law.removes made name j).0
            ∙ ap (λ (o : Option (Dict Str)). if same name j then none else o)
                (law.creates claimed name labels j).0
            ∙ if_twice (same name j) labels (lookup j (volumes claimed))
            ∙ ap (λ (m : Dict (Dict Str)). if same name j then none else lookup j m)
                (law.applies s pv j).2;
      },
    )
