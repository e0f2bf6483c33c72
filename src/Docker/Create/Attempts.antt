-- ===== src/Docker/Create/Attempts.antt =====
-- The attempts end: the names that are tried differ, and only so many are in use.
use nanokube.Prelude.{
  ℕ, zero, suc, ◌+◌, ◌≤◌, ◌<◌, ◌≡◌, refl, sym, ap, ◌∙◌, subst, ◌⊎◌, inl, inr, true, false, Option,
  some, List, [], ◌∷◌, ◌++◌, arith, if◌then◌else◌, Bool-cases, length, take, length-append,
  take-append, Str, same, same_iff, member, append_left_cancel, Result, ok, fail,
}
use nanokube.Tags.Decimal.{decimal, parse_uint32, parse_uint32-decimal, max_uint32}
use nanokube.Tags.Builder.{
  Codec, SandboxConfig, TagBuilder, get, security_context_for, hydrate, attempt, increment_attempt,
  pod_sandbox_config, build, key_name, key_attempt, key_type, key_sandbox_config, type_container,
}
use nanokube.Tags.Builder.Reading.{get-set, built, built-get, IsLawful, pod_sandbox_config-get}
use nanokube.Docker.Create.{
  Sandbox, Request, Wish, Reply, created, conflict, refused, Runtime, tagged, settle, create_loop,
  wish_of, create_container, lacks_user, chosen_user,
}

unfoldable pub without : Str → List Str → List Str
without x [] = []
without x (y ∷ ys) = if same x y then ys else y ∷ without x ys

length-without :
    (x : Str) (ys : List Str) → member x ys ≡ true → suc (length (without x ys)) ≡ length ys
unfolding without
length-without x [] h = cc
length-without x (y ∷ ys) h = elim (Bool-cases (same x y)) [
  | inl e ↦ rw e refl
  | inr e ↦ let ih = length-without x ys (ground arith) in rw e (omega (arith, ih))
]

member-without :
    (z x : Str) (ys : List Str)
    → same z x ≡ false
    → member z ys ≡ true
    → member z (without x ys) ≡ true
unfolding without
member-without z x [] d h = cc
member-without z x (y ∷ ys) d h = elim (Bool-cases (same x y)) [
  | inl e ↦ ground (arith, same_iff x y, same_iff z y, same_iff z x)
  | inr e ↦ ground (arith, member-without z x ys d)
]

append_right_cancel : (xs ys s : Str) → xs ++ s ≡ ys ++ s → xs ≡ ys
append_right_cancel xs ys s e =
    let n : length xs ≡ length ys =
      omega (arith, length-append xs s, length-append ys s, ap (λ (t : Str). length t) e) in
    sym (take-append xs s)
    ∙ ap (take (length xs)) e
    ∙ ap (λ (k : ℕ). take k (ys ++ s)) n
    ∙ take-append ys s

-- The name of a container at one of its attempts.
abbrev pub name_at : Str → SandboxConfig → ℕ → Str
name_at name pod n = name ++ (b'-' ∷ (decimal n ++ (b'.' ∷ (pod.name ++ (b'.' ∷ pod.namespace)))))

name_at_injective :
    (name : Str) (pod : SandboxConfig) (m n : ℕ)
    → m ≤ max_uint32
    → n ≤ max_uint32
    → same (name_at name pod m) (name_at name pod n) ≡ true
    → m ≡ n
name_at_injective name pod m n hm hn e =
    let behind : (b'-' ∷ (decimal m ++ (b'.' ∷ (pod.name ++ (b'.' ∷ pod.namespace)))))
        ≡ (b'-' ∷ (decimal n ++ (b'.' ∷ (pod.name ++ (b'.' ∷ pod.namespace))))) =
      append_left_cancel name _ _ ((same_iff (name_at name pod m) (name_at name pod n)).0 e) in
    let digits_same : decimal m ≡ decimal n =
      append_right_cancel (decimal m) (decimal n) (b'.' ∷ (pod.name ++ (b'.' ∷ pod.namespace)))
        (append_left_cancel (b'-' ∷ []) _ _ behind) in
    let back : (k : ℕ) → k ≤ max_uint32 → parse_uint32 (decimal k) ≡ k =
      λ k h. parse_uint32-decimal k ∙ ground arith in
    sym (back m hm) ∙ ap parse_uint32 digits_same ∙ back n hn

-- The tags of a container at one of its attempts.
pub record IsAt (c : Codec) (name : Str) (pod : SandboxConfig) (n : ℕ) (b : TagBuilder)
    : Type 0 where
  kind : get b key_type ≡ type_container
  named : get b key_name ≡ name
  tried : get b key_attempt ≡ decimal n
  config : pod_sandbox_config c b ≡ pod

increment_attempt-IsAt :
    (c : Codec) (name : Str) (pod : SandboxConfig) (n : ℕ) (b : TagBuilder)
    → n ≤ max_uint32
    → IsAt c name pod n b
    → IsAt c name pod (n + 1) (increment_attempt b)
unfolding increment_attempt same pod_sandbox_config
increment_attempt-IsAt c name pod n b small h = record {
  kind = get-set key_attempt key_type _ b ∙ h.kind;
  named = get-set key_attempt key_name _ b ∙ h.named;
  tried =
      get-set key_attempt key_attempt _ b
      ∙ ap (λ (k : ℕ). decimal (k + 1))
          (ap parse_uint32 h.tried ∙ parse_uint32-decimal n ∙ ground arith);
  config = rw (get-set key_attempt key_sandbox_config (decimal (attempt b + 1)) b) h.config;
}

build-IsAt :
    (c : Codec) (name : Str) (pod : SandboxConfig) (n : ℕ) (b : TagBuilder)
    → IsAt c name pod n b
    → (build c b).0 ≡ name_at name pod n
unfolding build same
build-IsAt c name pod n b h = rw (h.kind, h.named, h.tried, h.config) refl

-- A runtime at which these names are in use: it answers with a conflict for no other name, and then
-- does nothing.
abbrev pub ConflictsIn : {S : Type 0} → Runtime S → S → List Str → Type 0
ConflictsIn {S} r s names =
    (w : Wish) → (r.create s w).1 ≡ conflict → ((r.create s w).0 ≡ s) × (member w.name names ≡ true)

-- What a reply that is no conflict comes to.
abbrev pub Settles : {S : Type 0} → S × Reply → S × Result Str Str → Type 0
Settles (s, created id) res = res ≡ (s, ok id)
Settles (s, refused e) res = res ≡ (s, fail e)
Settles (s, conflict) res = ⊥

module _ {S : Type 0} (c : Codec) (r : Runtime S) (s : S) (w : Wish) (name : Str)
    (pod : SandboxConfig) where
  settle-cases :
      (x : S × Reply) (again : S → Option (S × Result Str Str))
      → ((res : S × Result Str Str) × (settle c r x again ≡ some res) × Settles x res)
        ⊎ ((x.1 ≡ conflict) × (settle c r x again ≡ again x.0))
  settle-cases (t, created id) again = inl ((t, ok id), refl, refl)
  settle-cases (t, refused e) again = inl ((t, fail e), refl, refl)
  settle-cases (t, conflict) again = inr (refl, refl)

  -- The loop ends, at an attempt of the container that is no conflict.
  pub record Ends (n k : ℕ) (out : Option (S × Result Str Str)) : Type 0 where
    pub result : S × Result Str Str
    pub ends : out ≡ some result
    pub at : ℕ
    pub tags : TagBuilder
    pub tags_at : IsAt c name pod at tags
    pub from : n ≤ at
    pub until : at ≤ n + k
    pub settles : Settles (r.create s (tagged c r tags w)) result

  -- From attempt `n` on, the names in use are among these.
  UsedFrom : ℕ → List Str → Type 0
  UsedFrom n used =
      (m : ℕ) (x : Wish)
      → n ≤ m
      → m ≤ max_uint32
      → x.name ≡ name_at name pod m
      → (r.create s x).1 ≡ conflict
      → ((r.create s x).0 ≡ s) × (member (name_at name pod m) used ≡ true)

  UsedFrom-without :
      (n : ℕ) (used : List Str)
      → n ≤ max_uint32
      → UsedFrom n used
      → UsedFrom (n + 1) (without (name_at name pod n) used)
  unfolding UsedFrom
  UsedFrom-without n used small h m x le hm e con =
      let (still, there) = h m x (omega arith) hm e con in
      let other : same (name_at name pod m) (name_at name pod n) ≡ false =
        elim (Bool-cases (same (name_at name pod m) (name_at name pod n))) [
          | inr miss ↦ miss
          | inl hit ↦ absurd (omega (arith, name_at_injective name pod m n hm small hit))
        ] in
      (still, member-without (name_at name pod m) (name_at name pod n) used other there)

  create_loop-Ends :
      (fuel n : ℕ) (b : TagBuilder) (used : List Str)
      → IsAt c name pod n b
      → UsedFrom n used
      → length used < fuel
      → n + length used ≤ max_uint32
      → Ends n (length used) (create_loop c r fuel s b w)
  unfolding create_loop UsedFrom
  create_loop-Ends zero n b used h u lt small = absurd (omega arith)
  create_loop-Ends (suc fuel) n b used h u lt small =
      elim (settle-cases (r.create s (tagged c r b w))
        (λ s'. create_loop c r fuel s' (increment_attempt b) w)) [
          | inl (res, e, st) ↦ record {
            result = res;
            ends = e;
            at = n;
            tags = b;
            tags_at = h;
            from = omega arith;
            until = omega arith;
            settles = st;
          }
          | inr (con, e) ↦
              let small_n : n ≤ max_uint32 = omega arith in
              let (still, there) =
                u n (tagged c r b w) (omega arith) small_n (build-IsAt c name pod n b h) con in
              let fewer = length-without (name_at name pod n) used there in
              let ih =
                create_loop-Ends fuel (n + 1) (increment_attempt b)
                  (without (name_at name pod n) used)
                  (increment_attempt-IsAt c name pod n b small_n h)
                  (UsedFrom-without n used small_n u) (omega (arith, fewer))
                  (omega (arith, fewer)) in
              record {
                result = ih.result;
                ends = e ∙ ap (λ t. create_loop c r fuel t (increment_attempt b) w) still ∙ ih.ends;
                at = ih.at;
                tags = ih.tags;
                tags_at = ih.tags_at;
                from = omega (arith, ih.from);
                until = omega (arith, ih.until, fewer);
                settles = ih.settles;
              }
        ]

-- If the sandbox can be inspected and a group comes with a user, and the runtime answers with a
-- conflict only for names in use, doing nothing then, CreateContainer returns, on fuel above the
-- number of those names. It returns what the runtime replies to an attempt that is no conflict,
-- with that attempt in the name and in the tags; it is the attempt of the request or one of as many
-- behind it as names are in use. The attempts stay 32-bit numbers and the codec is lawful here. The
-- user is the one that the request names, or else the one that the sandbox's tags hold for it.
pub create_container-Ends :
    {S : Type 0} (c : Codec) (r : Runtime S) (fuel : ℕ) (resolve : Str → Str)
    (prefix driver sandbox_id : Str) (q : Request) (pod : SandboxConfig) (s : S) (sandbox : Sandbox)
    (used : List Str)
    → r.inspect s sandbox_id ≡ ok sandbox
    → lacks_user q.run_as_user q.run_as_group ≡ false
    → ConflictsIn r s used
    → IsLawful c pod q.config
    → length used < fuel
    → q.attempt + length used ≤ max_uint32
    → Ends c r s
        (wish_of resolve sandbox_id sandbox q
          (chosen_user q (security_context_for q.name (hydrate prefix driver sandbox.labels))))
        q.name
        pod
        q.attempt
        (length used)
        (create_container c r fuel resolve prefix driver sandbox_id q pod s)
unfolding create_container UsedFrom
create_container-Ends c r fuel resolve prefix driver sandbox_id q pod s sandbox used found fine law
      lawful enough small =
    let (kind, named, _, tried, _, blob) =
      built-get c prefix driver q.name sandbox_id q.attempt q.config pod in
    let b = built c prefix driver q.name sandbox_id q.attempt q.config pod in
    let at : IsAt c q.name pod q.attempt b = record {
      kind = kind;
      named = named;
      tried = tried;
      config = pod_sandbox_config-get c pod q.config lawful b blob;
    } in
    rw (found, fine)
      (create_loop-Ends c r s _ q.name pod fuel q.attempt b used at
        (λ m x le hm e con.
          let (still, there) = law x con in (still, subst (λ n. member n used ≡ true) e there))
        enough small)
