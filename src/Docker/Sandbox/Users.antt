-- ===== src/Docker/Sandbox/Users.antt =====
-- The user of a container, from the pod that Admit sees to what CreateContainer asks for.
use nanokube.Prelude.{
  ℕ, ◌+◌, ◌≤◌, ◌<◌, ◌≡◌, refl, sym, ap, ◌∙◌, subst, inl, inr, true, false, Option, none, some, List,
  [], ◌∷◌, ◌++◌, Bool-cases, length, Str, same, same_iff, has_prefix, has_prefix-append, Dict,
  lookup, insert, IsMap, insert-IsMap, or_else, lookup-insert, ok,
}
use nanokube.Tags.Decimal.{ℤ, max_uint32}
use nanokube.Tags.Builder.{
  Codec, TagBuilder, HostAlias, get, set, new_tag_builder, hydrate, build, full_key,
  security_context_for, key_security_context,
}
use nanokube.Tags.Builder.Reading.{get-hydrate, IsLawful}
use nanokube.Docker.Create.{
  Sandbox, Request, Runtime, wish_of, create_container, chosen_user, lacks_user,
}
use nanokube.Docker.Create.Attempts.{ConflictsIn, Ends, create_container-Ends}
use nanokube.Backend.Probes.{IntOrString}
use nanokube.Backend.Admit.{Pod, context_key, admit}
use nanokube.Backend.Admit.Reading.{
  append_assoc, user_for, user_for-not_empty, every_container, lookup-admit,
}
use nanokube.Docker.Sandbox.Plan.{PodConfig, copy_contexts, sandbox_builder, sandbox_labels}

pub copy_contexts-IsMap :
    (p : Str) (labels m : Dict Str) → IsMap labels → IsMap (copy_contexts p labels m)
unfolding copy_contexts
copy_contexts-IsMap p labels [] h = h
copy_contexts-IsMap p labels ((k, v) ∷ m) h = elim (Bool-cases (has_prefix k p)) [
  | inl e ↦ rw e (copy_contexts-IsMap p (insert k v labels) m (insert-IsMap k v labels h))
  | inr e ↦ rw e (copy_contexts-IsMap p labels m h)
]

-- An annotation with the prefix of the security contexts is a label of the sandbox.
lookup-copy_contexts :
    (p k : Str) (labels m : Dict Str)
    → IsMap m
    → has_prefix k p ≡ true
    → lookup k (copy_contexts p labels m) ≡ or_else (lookup k m) (lookup k labels)
unfolding copy_contexts lookup
lookup-copy_contexts p k labels [] h has = refl
lookup-copy_contexts p k labels ((j, v) ∷ m) (fresh, h) has = elim (Bool-cases (same j k)) [
  | inl hit ↦
      let e : j ≡ k = (same_iff j k).0 hit in
      let gone : lookup k m ≡ none = subst (λ t. lookup t m ≡ none) e fresh in
      let takes : has_prefix j p ≡ true = subst (λ t. has_prefix t p ≡ true) (sym e) has in
      rw takes (
        lookup-copy_contexts p k (insert j v labels) m h has
        ∙ rw (gone, hit) (lookup-insert j k v labels ∙ rw hit refl))
  | inr miss ↦ elim (Bool-cases (has_prefix j p)) [
    | inl takes ↦ rw takes (
        lookup-copy_contexts p k (insert j v labels) m h has
        ∙ rw (miss, lookup-insert j k v labels) (rw miss refl))
    | inr leaves ↦ rw (leaves, miss) (lookup-copy_contexts p k labels m h has)
  ]
]

pub sandbox_builder-IsMap :
    (c : Codec) (prefix driver : Str) (q : PodConfig)
    → IsMap (build c (sandbox_builder c prefix driver q)).1
unfolding sandbox_builder new_tag_builder set build
sandbox_builder-IsMap c prefix driver q = insert-IsMap _ _ _ (
    insert-IsMap _ _ _ (
      insert-IsMap _ _ _
        (insert-IsMap _ _ _ (insert-IsMap _ _ _ (insert-IsMap _ _ _ (insert-IsMap _ _ [] tt))))))

module _ (c : Codec) (prefix driver : Str) (q : PodConfig) where
  security_context_for-sandbox_labels :
      (name user : Str)
      → IsMap q.config.annotations
      → lookup (context_key prefix name) q.config.annotations ≡ some user
      → same user [] ≡ false
      → security_context_for name (hydrate prefix driver (sandbox_labels c prefix driver q)) ≡ user
  unfolding security_context_for sandbox_labels
  security_context_for-sandbox_labels name user m h there =
      let p = full_key prefix key_security_context in
      let k = context_key prefix name in
      let tags = (build c (sandbox_builder c prefix driver q)).1 in
      let labels : Dict Str = copy_contexts p tags q.config.annotations in
      let found : lookup k labels ≡ some user =
        lookup-copy_contexts p k tags q.config.annotations m (has_prefix-append p (b'/' ∷ name))
        ∙ ap (λ o. or_else o (lookup k tags)) h in
      let key : k ≡ full_key prefix (key_security_context ++ (b'/' ∷ name)) =
        append_assoc prefix (b'.' ∷ key_security_context) (b'/' ∷ name) in
      let b : TagBuilder = record { prefix = prefix; tags = labels } in
      let reads : get (hydrate prefix driver labels) (key_security_context ++ (b'/' ∷ name))
          ≡ user =
        get-hydrate b driver (key_security_context ++ (b'/' ∷ name)) user
          (copy_contexts-IsMap p tags q.config.annotations
            (sandbox_builder-IsMap c prefix driver q))
          (subst (λ t. lookup t labels ≡ some user) key found) in
      rw (reads, there) refl

-- A user that a pod's spec gives for a container is the user that the container runs as. Admit
-- stashes it; the sandbox is made with annotations in which that key reads as Admit left it; and
-- CreateContainer inspects that sandbox for a request that names no user itself. The attempts and
-- the runtime are as CreateContainer needs them: names in use are what makes a conflict, the fuel
-- is above their number, the attempts are 32-bit numbers, and the codec reads its configs back.
pub create_container-admit :
    {S : Type 0} (c : Codec) (r : Runtime S) (fuel : ℕ) (resolve : Str → Str)
    (prefix driver sandbox_id : Str) (marshal : List HostAlias → Str) (int_value : IntOrString → ℤ)
    (ex : Str → Str) (spec : Pod) (q : PodConfig) (request : Request) (s : S) (sandbox : Sandbox)
    (used : List Str) (user : Str)
    → user_for request.name (every_container spec) ≡ some user
    → lookup (context_key prefix request.name) q.config.annotations
      ≡ lookup
          (context_key prefix request.name)
          (admit prefix marshal int_value ex spec).annotations
    → IsMap q.config.annotations
    → sandbox.labels ≡ sandbox_labels c prefix driver q
    → request.run_as_user ≡ none
    → request.run_as_group ≡ none
    → request.run_as_username ≡ []
    → r.inspect s sandbox_id ≡ ok sandbox
    → ConflictsIn r s used
    → IsLawful c q.config request.config
    → length used < fuel
    → request.attempt + length used ≤ max_uint32
    → Ends c r s
        (wish_of resolve sandbox_id sandbox request user)
        request.name
        q.config
        request.attempt
        (length used)
        (create_container c r fuel resolve prefix driver sandbox_id request q.config s)
unfolding same
create_container-admit c r fuel resolve prefix driver sandbox_id marshal int_value ex spec q request
      s sandbox used user given kept m labelled no_user no_group no_name found law lawful enough
      small =
    let stashed : lookup (context_key prefix request.name) q.config.annotations ≡ some user =
      kept
      ∙ lookup-admit prefix marshal int_value ex spec request.name
      ∙ ap (λ o. or_else o (lookup (context_key prefix request.name) spec.annotations)) given in
    let reads : security_context_for request.name (hydrate prefix driver sandbox.labels) ≡ user =
      ap (λ t. security_context_for request.name (hydrate prefix driver t)) labelled
      ∙ security_context_for-sandbox_labels c prefix driver q request.name user m stashed
          (user_for-not_empty request.name (every_container spec) user given) in
    let chosen : chosen_user request
          (security_context_for request.name (hydrate prefix driver sandbox.labels))
        ≡ user =
      chosen_stashed request _ no_user no_group no_name ∙ reads in
    subst
      (λ u.
        Ends c r s (wish_of resolve sandbox_id sandbox request u) request.name q.config
          request.attempt (length used)
          (create_container c r fuel resolve prefix driver sandbox_id request q.config s))
      chosen
      (create_container-Ends c r fuel resolve prefix driver sandbox_id request q.config s sandbox
        used found (no_lack request no_group) law lawful enough small)
  where
    chosen_stashed :
        (request : Request) (stashed : Str)
        → request.run_as_user ≡ none
        → request.run_as_group ≡ none
        → request.run_as_username ≡ []
        → chosen_user request stashed ≡ stashed
    chosen_stashed request stashed a b e = rw (e, a, b) refl

    no_group_lack : (o : Option Str) → lacks_user o none ≡ false
    no_group_lack none = refl
    no_group_lack (some u) = refl

    no_lack :
        (request : Request)
        → request.run_as_group ≡ none
        → lacks_user request.run_as_user request.run_as_group ≡ false
    no_lack request e = ap (lacks_user request.run_as_user) e ∙ no_group_lack request.run_as_user
