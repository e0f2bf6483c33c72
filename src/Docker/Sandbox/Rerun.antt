-- ===== src/Docker/Sandbox/Rerun.antt =====
-- What RunPodSandbox does with the sandboxes that the pod has already.
use nanokube.Prelude.{
  ◌≡◌, refl, sym, ap, ◌∙◌, subst, ◌≢◌, ◌⊎◌, inl, inr, Bool, true, false, ◌||◌, Option, none, some,
  List, [], ◌∷◌, if◌then◌else◌, Bool-cases, All, Str, str, same, Dict, lookup, Result, ok, fail,
}
use nanokube.Network.Pool.{Service}
use nanokube.Tags.Builder.{HostAlias, full_key, key_uid}
use nanokube.Docker.Images.{Image, has_char, image_status}
use nanokube.Docker.Listing.{PodSandbox}
use nanokube.Docker.Sandbox.Status.{PodSandboxStatus}
use nanokube.Docker.Sandbox.Plan.{PodConfig, SandboxWish, sandbox_wish}
use nanokube.Docker.Sandbox.Life.{
  Settings, Engine, Driver, list_pod_sandbox, pod_sandbox_status, remove_pod_sandbox,
}
use nanokube.Docker.Sandbox.Run.{
  hash_of, is_ready, settle_existing, run_pod_sandbox, start_unless_ready, ready_again, in_hand,
  create_with, status_of_created, image_ready, looked_again, pull_image, after_pull,
  sandboxes_or_none, started, status_or,
}
use nanokube.Docker.Sandbox.Asked.{is_part}
use nanokube.Docker.Sandbox.Removal.{Boxes, Holds, without_pod, remove_pod_sandbox-without_pod}

-- The sandboxes that RunPodSandbox goes over.
abbrev pub existing : {S : Type 0} → Settings → Engine S → PodConfig → S → List PodSandbox
existing k e q s = sandboxes_or_none (
    list_pod_sandbox k e s (
      some (record {
        id = [];
        state = none;
        label_selector = (full_key k.prefix key_uid, q.uid) ∷ [];
      })))

-- What else changes what the runtime holds: nothing but a creation, which adds one container.
pub record Adds {S : Type 0} (e : Engine S) (boxes : S → Boxes) : Type 0 where
  pub creates :
      (s : S) (w : SandboxWish) (j : Str)
      → (e.create s w).1 ≢ ok j
      → lookup j (boxes (e.create s w).0) ≡ lookup j (boxes s)
  pub starts : (s : S) (id : Str) → boxes (e.start_box s id).0 ≡ boxes s
  pub pulls : (s : S) (ref : Str) → boxes (e.image_pull s ref).0 ≡ boxes s

-- A sandbox in the list, with other config.
abbrev pub Stale : Str → Str → List PodSandbox → Type 0
Stale hash id [] = ⊥
Stale hash id (x ∷ xs) =
    ((x.id ≡ id) × (same (hash_of x.annotations) hash ≡ false)) ⊎ Stale hash id xs

module _ {S N : Type 0} (k : Settings) (e : Engine S) (v : Service N) (boxes : S → Boxes)
    (law : Holds e boxes) (driver_named : same k.driver [] ≡ false)
    (plain : has_char b'=' k.prefix ≡ false) where
  -- A removal leaves what is not there not there.
  remove-absent :
      (id j : Str) (d : Driver S N)
      → same id [] ≡ false
      → lookup j (boxes d.engine) ≡ none
      → lookup j (boxes (remove_pod_sandbox k e v id d).engine) ≡ none
  unfolding without_pod
  remove-absent id j d there h =
      remove_pod_sandbox-without_pod k e v boxes id d j law driver_named plain there
      ∙ gone (same id j) (lookup j (boxes d.engine)) h
    where
      gone :
          (b : Bool) (o : Option (Dict Str))
          → o ≡ none
          → (if b || is_part k.prefix k.driver id o then none else o) ≡ none
      gone true o h = refl
      gone false none h = refl
      gone false (some x) h = cc

  -- A removal takes away the pod that it is told to.
  remove-part :
      (id j : Str) (d : Driver S N)
      → same id [] ≡ false
      → same id j || is_part k.prefix k.driver id (lookup j (boxes d.engine)) ≡ true
      → lookup j (boxes (remove_pod_sandbox k e v id d).engine) ≡ none
  unfolding without_pod
  remove-part id j d there h =
      remove_pod_sandbox-without_pod k e v boxes id d j law driver_named plain there ∙ rw h refl

  settle-absent :
      (hash j : Str) (xs : List PodSandbox) (d : Driver S N) (st : Option PodSandboxStatus)
      → All (λ x. same x.id [] ≡ false) xs
      → lookup j (boxes d.engine) ≡ none
      → lookup j (boxes (settle_existing k e v hash xs (d, st)).0.engine) ≡ none
  unfolding settle_existing
  settle-absent hash j [] d st named h = h
  settle-absent hash j (x ∷ xs) d st (here, named) h =
      elim (Bool-cases (same (hash_of x.annotations) hash)) [
        | inl e1 ↦
            rw (e1, settle_existing)
              (settle-absent hash j xs d (status_or st (pod_sandbox_status k e d.engine x.id)) named
                h)
        | inr e1 ↦
            rw (e1, settle_existing)
              (settle-absent hash j xs (remove_pod_sandbox k e v x.id d) st named
                (remove-absent x.id j d here h))
      ]

  part_or_absent :
      (id j : Str) (b : Bool) (o : Option (Dict Str))
      → same id j || is_part k.prefix k.driver id o ≡ true
      → (same id j || is_part k.prefix k.driver id (if b then none else o) ≡ true)
        ⊎ ((if b then none else o) ≡ none)
  part_or_absent id j true o h = inr refl
  part_or_absent id j false o h = inl h

  settle-Stale :
      (hash id j : Str) (xs : List PodSandbox) (d : Driver S N) (st : Option PodSandboxStatus)
      → All (λ x. same x.id [] ≡ false) xs
      → Stale hash id xs
      → same id j || is_part k.prefix k.driver id (lookup j (boxes d.engine)) ≡ true
      → lookup j (boxes (settle_existing k e v hash xs (d, st)).0.engine) ≡ none
  unfolding settle_existing without_pod
  settle-Stale hash id j [] d st named stale h = absurd stale
  settle-Stale hash id j (x ∷ xs) d st (here, named) (inl (at, other)) h =
      rw (other, settle_existing)
        (settle-absent hash j xs (remove_pod_sandbox k e v x.id d) st named (
          remove-part x.id j d here (
            subst (λ i. same i j || is_part k.prefix k.driver i (lookup j (boxes d.engine)) ≡ true)
              (sym at) h)))
  settle-Stale hash id j (x ∷ xs) d st (here, named) (inr later) h =
      elim (Bool-cases (same (hash_of x.annotations) hash)) [
        | inl e1 ↦
            rw (e1, settle_existing)
              (settle-Stale hash id j xs d (status_or st (pod_sandbox_status k e d.engine x.id))
                named later h)
        | inr e1 ↦
            rw (e1, settle_existing)
              (elim (after_removal x.id here) [
                | inl still ↦
                    settle-Stale hash id j xs (remove_pod_sandbox k e v x.id d) st named later still
                | inr gone ↦ settle-absent hash j xs (remove_pod_sandbox k e v x.id d) st named gone
              ])
      ]
    where
      after_removal :
          (i : Str)
          → same i [] ≡ false
          → (same id j
                || is_part k.prefix k.driver id
                    (lookup j (boxes (remove_pod_sandbox k e v i d).engine))
              ≡ true)
            ⊎ (lookup j (boxes (remove_pod_sandbox k e v i d).engine) ≡ none)
      after_removal i named =
          subst (λ o. (same id j || is_part k.prefix k.driver id o ≡ true) ⊎ (o ≡ none))
            (sym (remove_pod_sandbox-without_pod k e v boxes i d j law driver_named plain named))
            (part_or_absent id j
              (same i j || is_part k.prefix k.driver i (lookup j (boxes d.engine)))
              (lookup j (boxes d.engine)) h)

-- Behind the loop only a creation adds to what the runtime holds.
module _ {S : Type 0} (e : Engine S) (boxes : S → Boxes) (law : Adds e boxes) where
  after_pull-boxes : (ref : Str) (x : S × Option Str) → boxes (after_pull e ref x).0 ≡ boxes x.0
  after_pull-boxes ref (s, none) = refl
  after_pull-boxes ref (s, some err) = refl

  looked_again-boxes :
      (ref : Str) (x : S × Result Str Str) → boxes (looked_again e ref x).0 ≡ boxes x.0
  looked_again-boxes ref (s, ok id) = refl
  looked_again-boxes ref (s, fail err) = refl

  image_ready-boxes :
      (s : S) (ref : Str) (r : Result Str (Option Image))
      → boxes (image_ready e s ref r).0 ≡ boxes s
  unfolding pull_image
  image_ready-boxes s ref (ok (some i)) = refl
  image_ready-boxes s ref (ok none) =
      looked_again-boxes ref (pull_image e s ref)
      ∙ after_pull-boxes ref (e.image_pull s ref)
      ∙ law.pulls s ref
  image_ready-boxes s ref (fail err) =
      looked_again-boxes ref (pull_image e s ref)
      ∙ after_pull-boxes ref (e.image_pull s ref)
      ∙ law.pulls s ref

module _ {S N : Type 0} (k : Settings) (e : Engine S) (boxes : S → Boxes) (law : Adds e boxes)
    (j : Str) (never : (s : S) (w : SandboxWish) → (e.create s w).1 ≢ ok j) where
  status_of_created-engine :
      (d : Driver S N) (x : S × Result Str Str) → (status_of_created k e d x).0.engine ≡ x.0
  status_of_created-engine d (s, ok id) = refl
  status_of_created-engine d (s, fail err) = refl

  create_with-boxes :
      (decode : Str → Option (List HostAlias)) (q : PodConfig) (d : Driver S N) (x : S × Option Str)
      → lookup j (boxes (create_with k e decode q d x).0.engine) ≡ lookup j (boxes x.0)
  create_with-boxes decode q d (s, some err) = refl
  create_with-boxes decode q d (s, none) =
      let w = sandbox_wish k.codec k.prefix k.driver decode q in
      ap (λ t. lookup j (boxes t))
        (status_of_created-engine (record d { engine = s }) (e.create s w))
      ∙ law.creates s w j (never s w)

  in_hand-boxes :
      (decode : Str → Option (List HostAlias)) (q : PodConfig)
      (x : Driver S N × Option PodSandboxStatus)
      → lookup j (boxes (in_hand k e decode q x).0.engine) ≡ lookup j (boxes x.0.engine)
  in_hand-boxes decode q (d, some st) = refl
  in_hand-boxes decode q (d, none) =
      let looked = image_status (e.image_inspect d.engine) (str "busybox") in
      create_with-boxes decode q d (image_ready e d.engine (str "busybox") looked)
      ∙ ap (lookup j) (image_ready-boxes e boxes law d.engine (str "busybox") looked)

  started-engine :
      (d : Driver S N) (r : Result Str PodSandboxStatus) → (started d r).0.engine ≡ d.engine
  started-engine d (ok st) = refl
  started-engine d (fail err) = refl

  ready_again-engine :
      (id : Str) (d : Driver S N) (x : S × Option Str) → (ready_again k e id d x).0.engine ≡ x.0
  ready_again-engine id d (s, some err) = refl
  ready_again-engine id d (s, none) =
      started-engine (record d { engine = s }) (pod_sandbox_status k e s id)

  start_unless_ready-boxes :
      (x : Driver S N × Result Str PodSandboxStatus)
      → lookup j (boxes (start_unless_ready k e x).0.engine) ≡ lookup j (boxes x.0.engine)
  start_unless_ready-boxes (d, fail err) = refl
  start_unless_ready-boxes (d, ok st) = elim (Bool-cases (is_ready st.state)) [
    | inl y ↦ rw y refl
    | inr n ↦ rw n (
        ap (λ t. lookup j (boxes t)) (ready_again-engine st.id d (e.start_box d.engine st.id))
        ∙ ap (lookup j) (law.starts d.engine st.id))
  ]

-- If a pod has a sandbox with another config hash, then after RunPodSandbox, whether it succeeds or
-- not, neither that sandbox nor a container in it is left on the runtime. The runtime removes what
-- it is told to, lists by labels, adds only what is created, and gives none of these ids to what it
-- creates; listed ids and the driver's name are not empty, and the prefix of the tags has no equals
-- sign.
pub run_pod_sandbox-Stale :
    {S N : Type 0} (k : Settings) (e : Engine S) (v : Service N) (boxes : S → Boxes)
    (decode : Str → Option (List HostAlias)) (q : PodConfig) (d : Driver S N) (id j : Str)
    → Holds e boxes
    → Adds e boxes
    → same k.driver [] ≡ false
    → has_char b'=' k.prefix ≡ false
    → All (λ x. same x.id [] ≡ false) (existing k e q d.engine)
    → Stale (hash_of q.config.annotations) id (existing k e q d.engine)
    → same id j || is_part k.prefix k.driver id (lookup j (boxes d.engine)) ≡ true
    → ((s : S) (w : SandboxWish) → (e.create s w).1 ≢ ok j)
    → lookup j (boxes (run_pod_sandbox k e v decode q d).0.engine) ≡ none
unfolding run_pod_sandbox
run_pod_sandbox-Stale k e v boxes decode q d id j holds adds driver_named plain named stale part
      never =
    let hash = hash_of q.config.annotations in
    let xs = existing k e q d.engine in
    start_unless_ready-boxes k e boxes adds j never
      (in_hand k e decode q (settle_existing k e v hash xs (d, none)))
    ∙ in_hand-boxes k e boxes adds j never decode q (settle_existing k e v hash xs (d, none))
    ∙ settle-Stale k e v boxes holds driver_named plain hash id j xs d none named stale part
