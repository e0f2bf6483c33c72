-- ===== src/Docker/Sandbox/Reuse.antt =====
-- RunPodSandbox finds the sandbox again that it made.
use nanokube.Prelude.{
  ℕ, ◌≡◌, refl, ap, ◌∙◌, subst, inl, inr, Bool, true, false, ◌&&◌, ◌||◌, Option, none, some, List,
  [], ◌∷◌, ◌++◌, arith, if◌then◌else◌, Bool-cases, Str, str, same, same_iff, same_refl, has_prefix,
  Dict, lookup, insert, lookup-insert, ok,
}
use nanokube.Network.Pool.{Service}
use nanokube.Tags.Builder.{
  Codec, SandboxConfig, ContainerConfig, TagBuilder, HostAlias, full_key, get, set, new_tag_builder,
  hydrate, labels, annotations, build, key_uid, key_name, key_namespace, key_type,
  key_sandbox_config, key_security_context, type_sandbox,
}
use nanokube.Tags.Builder.Reading.{
  Has, Has-set_self, Has-set_ne, get-hydrate, IsLawful, pod_sandbox_config-get,
}
use nanokube.Docker.Listing.{Summary, PodSandbox, sandbox_of, match_labels, all_match}
use nanokube.Docker.Sandbox.Status.{SandboxInspect, sandbox_status}
use nanokube.Docker.Sandbox.Plan.{PodConfig, copy_contexts, sandbox_builder, sandbox_labels}
use nanokube.Docker.Sandbox.Life.{
  Settings, Engine, Driver, list_pod_sandbox, pod_sandbox_status, sandbox_filters, sandboxes_of,
  listed_sandboxes, remove_pod_sandbox, told_status,
}
use nanokube.Docker.Sandbox.Run.{
  hash_of, settle_existing, run_pod_sandbox, start_unless_ready, in_hand, sandboxes_or_none,
  status_or,
}
use nanokube.Docker.Sandbox.Users.{copy_contexts-IsMap, sandbox_builder-IsMap}

has_prefix-cancel : (p s t : Str) → has_prefix (p ++ s) (p ++ t) ≡ has_prefix s t
unfolding has_prefix
has_prefix-cancel [] s t = refl
has_prefix-cancel (x ∷ p) s t = ground (arith, has_prefix-cancel p s t)

differs_by_prefix :
    (s t p : Str) → has_prefix s p ≡ false → has_prefix t p ≡ true → same t s ≡ false
differs_by_prefix s t p h g = elim (Bool-cases (same t s)) [
  | inr miss ↦ miss
  | inl hit ↦
      let e : has_prefix s p ≡ true = subst (λ x. has_prefix x p ≡ true) ((same_iff t s).0 hit) g in
      absurd cc
]

-- Every other label stays as the tags have it.
lookup-copy_contexts_other :
    (p k : Str) (labels m : Dict Str)
    → has_prefix k p ≡ false
    → lookup k (copy_contexts p labels m) ≡ lookup k labels
unfolding copy_contexts
lookup-copy_contexts_other p k labels [] h = refl
lookup-copy_contexts_other p k labels ((j, v) ∷ m) h = elim (Bool-cases (has_prefix j p)) [
  | inl takes ↦ rw takes (
      lookup-copy_contexts_other p k (insert j v labels) m h
      ∙ lookup-insert j k v labels
      ∙ rw (differs_by_prefix k j p h takes) refl)
  | inr leaves ↦ rw leaves (lookup-copy_contexts_other p k labels m h)
]

module _ (c : Codec) (prefix driver : Str) (q : PodConfig) where
  abbrev pub sandbox_tags : TagBuilder
  sandbox_tags = record { prefix = prefix; tags = sandbox_labels c prefix driver q }

  sandbox_builder-Has :
      Has (sandbox_builder c prefix driver q) key_type type_sandbox
      × Has (sandbox_builder c prefix driver q) key_uid q.uid
      × Has (sandbox_builder c prefix driver q) key_sandbox_config (c.encode_sandbox q.config)
  unfolding sandbox_builder same
  sandbox_builder-Has =
      let b0 = new_tag_builder prefix driver in
      let b1 = set key_type type_sandbox b0 in
      let b2 = set key_name q.config.name b1 in
      let b3 = set key_namespace q.config.namespace b2 in
      let b4 = set key_uid q.uid b3 in
      (
        Has-set_ne key_sandbox_config key_type type_sandbox _ b4 refl (
            Has-set_ne key_uid key_type type_sandbox _ b3 refl (
              Has-set_ne key_namespace key_type type_sandbox _ b2 refl (
                Has-set_ne key_name key_type type_sandbox _ b1 refl
                  (Has-set_self key_type type_sandbox b0)))),
        Has-set_ne key_sandbox_config key_uid q.uid _ b4 refl (Has-set_self key_uid q.uid b3),
        Has-set_self key_sandbox_config (c.encode_sandbox q.config) b4,
      )

  sandbox_tags-Has :
      (key v : Str)
      → has_prefix key key_security_context ≡ false
      → Has (sandbox_builder c prefix driver q) key v
      → lookup (full_key prefix key) (sandbox_labels c prefix driver q) ≡ some v
  unfolding sandbox_labels build sandbox_builder set new_tag_builder has_prefix
  sandbox_tags-Has key v h has =
      lookup-copy_contexts_other (full_key prefix key_security_context) (full_key prefix key) _
        q.config.annotations
        (has_prefix-cancel prefix (b'.' ∷ key) (b'.' ∷ key_security_context) ∙ h)
      ∙ has

  sandbox_tags-get :
      (key v : Str)
      → has_prefix key key_security_context ≡ false
      → Has (sandbox_builder c prefix driver q) key v
      → get (hydrate prefix driver (sandbox_labels c prefix driver q)) key ≡ v
  unfolding sandbox_labels
  sandbox_tags-get key v h has =
      get-hydrate sandbox_tags driver key v
        (copy_contexts-IsMap (full_key prefix key_security_context) _ q.config.annotations
          (sandbox_builder-IsMap c prefix driver q))
        (sandbox_tags-Has key v h has)

  sandbox_tags-annotations :
      (y : ContainerConfig)
      → IsLawful c q.config y
      → annotations c (hydrate prefix driver (sandbox_labels c prefix driver q))
        ≡ q.config.annotations
  unfolding annotations same has_prefix
  sandbox_tags-annotations y law =
      let (t, _, blob) = sandbox_builder-Has in
      rw (sandbox_tags-get key_type type_sandbox refl t) (
        ap (λ (x : SandboxConfig). x.annotations)
          (pod_sandbox_config-get c q.config y law _
            (sandbox_tags-get key_sandbox_config _ refl blob)))

  -- The filter on the pod's uid finds the sandbox.
  sandbox_tags-match :
      match_labels c prefix driver
        (sandbox_labels c prefix driver q)
        ((full_key prefix key_uid, q.uid) ∷ [])
      ≡ true
  unfolding match_labels all_match has_prefix
  sandbox_tags-match =
      let (_, u, _) = sandbox_builder-Has in
      rw (sandbox_tags-Has key_uid q.uid refl u) (rw (same_refl q.uid) (or_true (same _ q.uid)))
    where
      or_true : (b : Bool) → (b || true) && true ≡ true
      or_true true = refl
      or_true false = refl

abbrev pub uid_filter : Settings → PodConfig → List (Str × Str)
uid_filter k q = sandbox_filters k.prefix k.driver (
    some
      (record { id = []; state = none; label_selector = (full_key k.prefix key_uid, q.uid) ∷ [] }))

-- If the one sandbox that the runtime lists runs with the labels that RunPodSandbox gives it for
-- this request, then RunPodSandbox returns its id and changes nothing. The codec reads the
-- request's config back, and an inspection of a container's id tells that id.
pub run_pod_sandbox-reuse :
    {S N : Type 0} (k : Settings) (e : Engine S) (v : Service N)
    (decode : Str → Option (List HostAlias)) (q : PodConfig) (d : Driver S N) (s : Summary)
    (i : SandboxInspect) (y : ContainerConfig)
    → e.list d.engine (uid_filter k q) ≡ ok (s ∷ [])
    → s.labels ≡ sandbox_labels k.codec k.prefix k.driver q
    → e.inspect d.engine s.id ≡ ok i
    → i.id ≡ s.id
    → i.status ≡ str "running"
    → IsLawful k.codec q.config y
    → run_pod_sandbox k e v decode q d ≡ (d, ok s.id)
unfolding run_pod_sandbox list_pod_sandbox settle_existing pod_sandbox_status sandboxes_of
    sandbox_of sandbox_status same
run_pod_sandbox-reuse k e v decode q d s i y lists labelled inspects told runs law =
    let selector : Dict Str = (full_key k.prefix key_uid, q.uid) ∷ [] in
    let hash = hash_of q.config.annotations in
    let run_on = λ (xs : List PodSandbox).
      start_unless_ready k e (in_hand k e decode q (settle_existing k e v hash xs (d, none))) in
    let matched : match_labels k.codec k.prefix k.driver s.labels selector ≡ true =
      ap (λ t. match_labels k.codec k.prefix k.driver t selector) labelled
      ∙ sandbox_tags-match k.codec k.prefix k.driver q in
    let hashes : same (hash_of (annotations k.codec (hydrate k.prefix k.driver s.labels))) hash
        ≡ true =
      ap (λ t. same (hash_of (annotations k.codec (hydrate k.prefix k.driver t))) hash) labelled
      ∙ ap (λ t. same (hash_of t) hash) (sandbox_tags-annotations k.codec k.prefix k.driver q y law)
      ∙ same_refl hash in
    ap (λ r. run_on (sandboxes_or_none (listed_sandboxes k selector r))) lists
    ∙ ap (λ (b : Bool). run_on (if b then sandbox_of k.codec k.prefix k.driver s ∷ [] else []))
        matched
    ∙ ap
        (λ (b : Bool). start_unless_ready k e (
          in_hand k e decode q (
            settle_existing k e v hash [] (
              if b
              then (d, status_or none (told_status k (e.inspect d.engine s.id)))
              else (remove_pod_sandbox k e v s.id d, none)))))
        hashes
    ∙ ap (λ r. start_unless_ready k e (in_hand k e decode q (d, status_or none (told_status k r))))
        inspects
    ∙ ready_now k.codec k.prefix k.driver k.unix_nano
  where
    ready_now :
        (c : Codec) (prefix driver : Str) (nano : Str → ℕ)
        → start_unless_ready k e (d, ok (sandbox_status c prefix driver nano i)) ≡ (d, ok s.id)
    ready_now c prefix driver nano = rw runs (ap (λ t. (d, ok t)) told)
