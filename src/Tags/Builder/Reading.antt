-- ===== src/Tags/Builder/Reading.antt =====
-- What is read back from tags that were written.
use nanokube.Prelude.{
  ℕ, ◌+◌, ◌≤◌, ◌≡◌, refl, ap, ◌∙◌, ◌≢◌, false, some, [], ◌∷◌, ◌++◌, arith, ltb, if◌then◌else◌, Str,
  same, same_iff, same_refl, same_ne, append_left_cancel, lookup, IsMap, insert-IsMap,
  lookup-copy_into, lookup-insert, lookup-insert_self,
}
use nanokube.Tags.Decimal.{decimal, parse_uint32, parse_uint32-decimal, max_uint32}
use nanokube.Tags.Builder.{
  Codec, SandboxConfig, ContainerConfig, TagBuilder, full_key, get, set, new_tag_builder, with_tags,
  with_attempt, attempt, increment_attempt, security_context_for, pod_sandbox_config,
  container_config, labels, annotations, build, container_builder, hydrate, key_name, key_attempt,
  key_sandbox_uid, key_type, key_sandbox_config, key_container_config, key_security_context,
  type_container,
}

full_key_injective : (p j k : Str) → full_key p j ≡ full_key p k → j ≡ k
full_key_injective p j k e =
    append_left_cancel (b'.' ∷ []) j k (append_left_cancel p (b'.' ∷ j) (b'.' ∷ k) e)

pub same-full_key : (p j k : Str) → same (full_key p j) (full_key p k) ≡ same j k
same-full_key p j k =
    ground (arith, same_iff (full_key p j) (full_key p k), same_iff j k, full_key_injective p j k)

-- A tag that is set reads as what it was set to, and every other tag as before.
pub get-set :
    (key j value : Str) (b : TagBuilder)
    → get (set key value b) j ≡ (if same key j then value else get b j)
unfolding get set
get-set key j value b =
    rw
      (
        lookup-insert (full_key b.prefix key) (full_key b.prefix j) value b.tags,
        same-full_key b.prefix key j,
      )
      (ground arith)

-- An attempt is a 32-bit number, so it is read back as it was set; incremented it reads as one
-- more, unless it is the greatest one, at which it stays.
pub increment_attempt_lem :
    (n : ℕ) (b : TagBuilder)
    → n ≤ max_uint32
    → (attempt (with_attempt n b) ≡ n)
      × (attempt (increment_attempt (with_attempt n b)) ≡ (if ltb n max_uint32 then n + 1 else n))
unfolding increment_attempt same
increment_attempt_lem n b small =
    let read_back : (m : ℕ) (b' : TagBuilder)
        → attempt (set key_attempt (decimal m) b') ≡ (if ltb max_uint32 m then max_uint32 else m) =
      λ m b'.
        ap parse_uint32 (get-set key_attempt key_attempt (decimal m) b') ∙ parse_uint32-decimal m in
    let first : attempt (with_attempt n b) ≡ n = read_back n b ∙ ground arith in
    (
      first,
      read_back _ _
          ∙ ap (λ m. if ltb max_uint32 (m + 1) then max_uint32 else m + 1) first
          ∙ ground arith,
    )

-- The tag is there, not only read as the empty text.
abbrev pub Has : TagBuilder → Str → Str → Type 0
Has b k v = lookup (full_key b.prefix k) b.tags ≡ some v

pub Has-set_self : (k v : Str) (b : TagBuilder) → Has (set k v b) k v
unfolding set
Has-set_self k v b = lookup-insert_self (full_key b.prefix k) v b.tags

pub Has-set_ne :
    (k j v w : Str) (b : TagBuilder) → same k j ≡ false → Has b j v → Has (set k w b) j v
unfolding set
Has-set_ne k j v w b e h =
    lookup-insert (full_key b.prefix k) (full_key b.prefix j) w b.tags
    ∙ rw (same-full_key b.prefix k j, e) h

pub get-hydrate :
    (b : TagBuilder) (driver k v : Str)
    → IsMap b.tags
    → Has b k v
    → get (hydrate b.prefix driver b.tags) k ≡ v
unfolding get hydrate with_tags new_tag_builder set
get-hydrate b driver k v m h =
    rw (lookup-copy_into (full_key b.prefix k) (new_tag_builder b.prefix driver).tags b.tags m)
      (rw h refl)

-- The codec writes these two configs as texts that are not empty, and reads them back.
pub record IsLawful (c : Codec) (x : SandboxConfig) (y : ContainerConfig) : Type 0 where
  pub sandbox : c.decode_sandbox (c.encode_sandbox x) ≡ x
  pub sandbox_text : c.encode_sandbox x ≢ []
  pub container : c.decode_container (c.encode_container y) ≡ y
  pub container_text : c.encode_container y ≢ []

module _ (c : Codec) (x : SandboxConfig) (y : ContainerConfig) (law : IsLawful c x y) where
  pub pod_sandbox_config-get :
      (b : TagBuilder) → get b key_sandbox_config ≡ c.encode_sandbox x → pod_sandbox_config c b ≡ x
  unfolding pod_sandbox_config
  pod_sandbox_config-get b e = rw (e, same_ne (c.encode_sandbox x) [] law.sandbox_text) law.sandbox

  container_config-get :
      (b : TagBuilder)
      → get b key_container_config ≡ c.encode_container y
      → container_config c b ≡ y
  unfolding container_config
  container_config-get b e =
      rw (e, same_ne (c.encode_container y) [] law.container_text) law.container

module _ (c : Codec) (prefix driver name sandbox_id : Str) (n : ℕ) (config : ContainerConfig)
    (sandbox_config : SandboxConfig) where
  abbrev pub built : TagBuilder
  built = container_builder c prefix driver name sandbox_id n config sandbox_config

  abbrev pub read : TagBuilder
  read = hydrate prefix driver built.tags

  built-IsMap : IsMap built.tags
  unfolding container_builder new_tag_builder set
  built-IsMap = insert-IsMap _ _ _ (
      insert-IsMap _ _ _ (
        insert-IsMap _ _ _ (
          insert-IsMap _ _ _ (
            insert-IsMap _ _ _
              (insert-IsMap _ _ _ (insert-IsMap _ _ _ (insert-IsMap _ _ [] tt)))))))

  pub built-get :
      (get built key_type ≡ type_container)
      × (get built key_name ≡ name)
      × (get built key_sandbox_uid ≡ sandbox_id)
      × (get built key_attempt ≡ decimal n)
      × (get built key_container_config ≡ c.encode_container config)
      × (get built key_sandbox_config ≡ c.encode_sandbox sandbox_config)
  unfolding container_builder same
  built-get = (simp get-set, simp get-set, simp get-set, simp get-set, simp get-set, simp get-set)

  built-Has :
      Has built key_type type_container
      × Has built key_name name
      × Has built key_sandbox_uid sandbox_id
      × Has built key_attempt (decimal n)
      × Has built key_container_config (c.encode_container config)
      × Has built key_sandbox_config (c.encode_sandbox sandbox_config)
  unfolding container_builder same
  built-Has =
      let b0 = new_tag_builder prefix driver in
      let b1 = set key_type type_container b0 in
      let b2 = set key_name name b1 in
      let b3 = set key_sandbox_uid sandbox_id b2 in
      let b4 = set key_attempt (decimal n) b3 in
      let b5 = set key_container_config (c.encode_container config) b4 in
      let last : (j v : Str) → same key_sandbox_config j ≡ false → Has b5 j v → Has built j v =
        λ j v e h. Has-set_ne key_sandbox_config j v _ b5 e h in
      let fifth : (j v : Str)
          → same key_sandbox_config j ≡ false
          → same key_container_config j ≡ false
          → Has b4 j v
          → Has built j v =
        λ j v e f h. last j v e (Has-set_ne key_container_config j v _ b4 f h) in
      let fourth : (j v : Str)
          → same key_sandbox_config j ≡ false
          → same key_container_config j ≡ false
          → same key_attempt j ≡ false
          → Has b3 j v
          → Has built j v =
        λ j v e f g h. fifth j v e f (Has-set_ne key_attempt j v _ b3 g h) in
      (
        fourth key_type type_container refl refl refl (
            Has-set_ne key_sandbox_uid key_type type_container _ b2 refl (
              Has-set_ne key_name key_type type_container _ b1 refl
                (Has-set_self key_type type_container b0))),
        fourth key_name name refl refl refl
            (Has-set_ne key_sandbox_uid key_name name _ b2 refl (Has-set_self key_name name b1)),
        fourth key_sandbox_uid sandbox_id refl refl refl
            (Has-set_self key_sandbox_uid sandbox_id b2),
        fifth key_attempt (decimal n) refl refl (Has-set_self key_attempt (decimal n) b3),
        last key_container_config _ refl (Has-set_self key_container_config _ b4),
        Has-set_self key_sandbox_config _ b5,
      )

  read-get : (k v : Str) → Has built k v → get read k ≡ v
  unfolding container_builder set new_tag_builder
  read-get k v h = get-hydrate built driver k v built-IsMap h

  -- From the tags of a container, read by a new builder, come its name, its sandbox, its attempt,
  -- its labels and annotations and the sandbox's config, as they were given; its name on the
  -- runtime is made of its name, attempt, pod and namespace. The attempt is a 32-bit number, and
  -- the codec reads the two configs back.
  pub container_builder-hydrate :
      n ≤ max_uint32
      → IsLawful c sandbox_config config
      → (get read key_name ≡ name)
        × (get read key_sandbox_uid ≡ sandbox_id)
        × (attempt read ≡ n)
        × (labels c read ≡ config.labels)
        × (annotations c read ≡ config.annotations)
        × (pod_sandbox_config c read ≡ sandbox_config)
        × ((build c built).0
            ≡ name
              ++ (b'-'
                  ∷ (decimal n
                      ++ (b'.' ∷ (sandbox_config.name ++ (b'.' ∷ sandbox_config.namespace))))))
  unfolding labels annotations build same
  container_builder-hydrate small law =
      let (t, m, s, a, cc, sc) = built-Has in
      let (bt, bm, _, ba, _, bsc) = built-get in
      let cfg = container_config-get c sandbox_config config law read (read-get _ _ cc) in
      let pod = pod_sandbox_config-get c sandbox_config config law built bsc in
      (
        read-get _ _ m,
        read-get _ _ s,
        ap parse_uint32 (read-get _ _ a) ∙ parse_uint32-decimal n ∙ ground arith,
        rw (read-get _ _ t) (ap (λ x. x.labels) cfg),
        rw (read-get _ _ t) (ap (λ x. x.annotations) cfg),
        pod_sandbox_config-get c sandbox_config config law read (read-get _ _ sc),
        rw (bt, bm, ba, pod) refl,
      )

own_key_differs :
    (name : Str) → same (key_security_context ++ (b'/' ∷ name)) key_security_context ≡ false
unfolding same
own_key_differs name = refl

-- A container's own security context is what it was stashed as, if that is not empty; if none was
-- stashed for it, or an empty one, it gets the pod's.
security_context_for-set :
    (name value : Str) (b : TagBuilder)
    → security_context_for name (set (key_security_context ++ (b'/' ∷ name)) value b)
      ≡ (if same value [] then get b key_security_context else value)
unfolding security_context_for
security_context_for-set name value b = rw (
  get-set (key_security_context ++ (b'/' ∷ name)) (key_security_context ++ (b'/' ∷ name)) value b,
  get-set (key_security_context ++ (b'/' ∷ name)) key_security_context value b,
  same_refl (key_security_context ++ (b'/' ∷ name)),
  own_key_differs name,
)
