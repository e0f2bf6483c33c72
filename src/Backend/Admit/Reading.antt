-- ===== src/Backend/Admit/Reading.antt =====
-- What the driver reads of the annotations that Admit wrote.
use nanokube.Prelude.{
  ◌≡◌, refl, sym, ap, ◌∙◌, subst, inl, inr, Bool, true, false, Option, none, some, List, [], ◌∷◌,
  ◌++◌, arith, if◌then◌else◌, Bool-cases, Str, same, Dict, lookup, or_else, lookup-insert,
}
use nanokube.Tags.Decimal.{ℤ, format_int, format_int-not_empty}
use nanokube.Tags.Builder.{
  HostAlias, full_key, key_security_context, key_host_aliases, key_dns_aliases,
}
use nanokube.Backend.Probes.{IntOrString}
use nanokube.Backend.Admit.{
  SecurityContext, PodContainer, Pod, user_text, context_key, stash, stash_all, with_host_aliases,
  with_dns_aliases, join_commas, names_of, admit, user_of,
}

-- Keys behind the same prefix.
key_same : (prefix a b : Str) → same (prefix ++ a) (prefix ++ b) ≡ same a b
unfolding same
key_same [] a b = refl
key_same (x ∷ prefix) a b = ground (arith, key_same prefix a b)

pub append_assoc : (a b c : Str) → (a ++ b) ++ c ≡ a ++ (b ++ c)
append_assoc [] b c = refl
append_assoc (x ∷ a) b c = ap (◌∷◌ x) (append_assoc a b c)

same-context_key :
    (prefix m n : Str) → same (context_key prefix m) (context_key prefix n) ≡ same m n
unfolding same
same-context_key prefix m n =
    rw
      (
        append_assoc prefix (b'.' ∷ key_security_context) (b'/' ∷ m),
        append_assoc prefix (b'.' ∷ key_security_context) (b'/' ∷ n),
      )
      (key_same prefix _ _)

context_key-host_aliases :
    (prefix n : Str) → same (full_key prefix key_host_aliases) (context_key prefix n) ≡ false
unfolding same
context_key-host_aliases prefix n =
    rw (append_assoc prefix (b'.' ∷ key_security_context) (b'/' ∷ n)) (key_same prefix _ _)

context_key-dns_aliases :
    (prefix n : Str) → same (full_key prefix key_dns_aliases) (context_key prefix n) ≡ false
unfolding same
context_key-dns_aliases prefix n =
    rw (append_assoc prefix (b'.' ∷ key_security_context) (b'/' ∷ n)) (key_same prefix _ _)

-- The user and group that a pod's containers give for a name: the last one that has a user.
unfoldable pub user_for : Str → List PodContainer → Option Str
user_for name [] = none
user_for name (c ∷ cs) =
    or_else (user_for name cs) (if same c.name name then user_text c.security_context else none)

or_else_assoc : (a b c : Option Str) → or_else (or_else a b) c ≡ or_else a (or_else b c)
or_else_assoc none b c = refl
or_else_assoc (some x) b c = refl

lookup-stash :
    (prefix name n : Str) (u : Option Str) (m : Dict Str)
    → lookup (context_key prefix name) (stash prefix n u m)
      ≡ or_else (if same n name then u else none) (lookup (context_key prefix name) m)
unfolding stash
lookup-stash prefix name n none m = elim (Bool-cases (same n name)) [
  | inl e ↦ rw e refl
  | inr e ↦ rw e refl
]
lookup-stash prefix name n (some u) m = elim (Bool-cases (same n name)) [
  | inl e ↦
      lookup-insert (context_key prefix n) (context_key prefix name) u m
      ∙ rw (same-context_key prefix n name, e) refl
  | inr e ↦
      lookup-insert (context_key prefix n) (context_key prefix name) u m
      ∙ rw (same-context_key prefix n name, e) refl
]

lookup-stash_all :
    (prefix name : Str) (cs : List PodContainer) (m : Dict Str)
    → lookup (context_key prefix name) (stash_all prefix cs m)
      ≡ or_else (user_for name cs) (lookup (context_key prefix name) m)
unfolding stash_all user_for
lookup-stash_all prefix name [] m = refl
lookup-stash_all prefix name (c ∷ cs) m =
    lookup-stash_all prefix name cs (stash prefix c.name (user_text c.security_context) m)
    ∙ ap (or_else (user_for name cs))
        (lookup-stash prefix name c.name (user_text c.security_context) m)
    ∙ sym (or_else_assoc (user_for name cs) _ _)

user_for-append :
    (name : Str) (xs ys : List PodContainer)
    → user_for name (xs ++ ys) ≡ or_else (user_for name ys) (user_for name xs)
unfolding user_for
user_for-append name [] ys = or_else_none (user_for name ys)
  where
    or_else_none : (o : Option Str) → o ≡ or_else o none
    or_else_none none = refl
    or_else_none (some v) = refl
user_for-append name (x ∷ xs) ys =
    ap (λ o. or_else o (if same x.name name then user_text x.security_context else none))
      (user_for-append name xs ys)
    ∙ or_else_assoc (user_for name ys) _ _

lookup-with_host_aliases :
    (prefix k : Str) (marshal : List HostAlias → Str) (hs : List HostAlias) (m : Dict Str)
    → same (full_key prefix key_host_aliases) k ≡ false
    → lookup k (with_host_aliases prefix marshal hs m) ≡ lookup k m
unfolding with_host_aliases
lookup-with_host_aliases prefix k marshal [] m e = refl
lookup-with_host_aliases prefix k marshal (h ∷ hs) m e =
    lookup-insert (full_key prefix key_host_aliases) k (marshal (h ∷ hs)) m ∙ rw e refl

lookup-with_dns_aliases :
    (prefix k : Str) (ns : List Str) (m : Dict Str)
    → same (full_key prefix key_dns_aliases) k ≡ false
    → lookup k (with_dns_aliases prefix ns m) ≡ lookup k m
unfolding with_dns_aliases
lookup-with_dns_aliases prefix k [] m e = refl
lookup-with_dns_aliases prefix k (n ∷ ns) m e =
    lookup-insert (full_key prefix key_dns_aliases) k (join_commas n ns) m ∙ rw e refl

-- The containers of a pod in the order in which Admit goes over them.
abbrev pub every_container : Pod → List PodContainer
every_container pod = pod.init_containers ++ (pod.containers ++ pod.ephemeral_containers)

module _ (prefix : Str) (marshal : List HostAlias → Str) (int_value : IntOrString → ℤ)
    (ex : Str → Str) (pod : Pod) where
  pub lookup-admit :
      (name : Str)
      → lookup (context_key prefix name) (admit prefix marshal int_value ex pod).annotations
        ≡ or_else
            (user_for name (every_container pod))
            (lookup (context_key prefix name) pod.annotations)
  unfolding admit
  lookup-admit name =
      let key = context_key prefix name in
      let i = pod.init_containers in
      let c = pod.containers in
      let e = pod.ephemeral_containers in
      lookup-with_dns_aliases prefix key (names_of c) _ (context_key-dns_aliases prefix name)
      ∙ lookup-with_host_aliases prefix key marshal pod.host_aliases _
          (context_key-host_aliases prefix name)
      ∙ lookup-stash_all prefix name e _
      ∙ ap (or_else (user_for name e)) (lookup-stash_all prefix name c _)
      ∙ ap (λ o. or_else (user_for name e) (or_else (user_for name c) o))
          (lookup-stash_all prefix name i pod.annotations)
      ∙ sym (or_else_assoc (user_for name e) (user_for name c) _)
      ∙ sym (or_else_assoc (or_else (user_for name e) (user_for name c)) (user_for name i) _)
      ∙ ap (λ o. or_else o (lookup key pod.annotations))
          (sym (
            user_for-append name i (c ++ e)
            ∙ ap (λ o. or_else o (user_for name i)) (user_for-append name c e)))

-- A user that is stashed is no empty text.
user_text-not_empty :
    (o : Option SecurityContext) (u : Str) → user_text o ≡ some u → same u [] ≡ false
unfolding same
user_text-not_empty none u h = cc
user_text-not_empty (some sc) u h = of_ids sc.run_as_user sc.run_as_group h
  where
    append-not_empty : (s t : Str) → same s [] ≡ false → same (s ++ t) [] ≡ false
    append-not_empty [] t h = cc
    append-not_empty (x ∷ s) t h = refl

    some_inj : (s t : Str) → some s ≡ some t → s ≡ t
    some_inj s t e = cc

    of_ids : (uid gid : Option ℤ) → user_of uid gid ≡ some u → same u [] ≡ false
    of_ids none gid h = cc
    of_ids (some n) none h =
        subst (λ t. same t [] ≡ false) (some_inj _ _ h) (format_int-not_empty n)
    of_ids (some n) (some g) h =
        subst (λ t. same t [] ≡ false) (some_inj _ _ h)
          (append-not_empty (format_int n) _ (format_int-not_empty n))

pub user_for-not_empty :
    (name : Str) (cs : List PodContainer) (u : Str) → user_for name cs ≡ some u → same u [] ≡ false
unfolding user_for
user_for-not_empty name [] u h = cc
user_for-not_empty name (c ∷ cs) u h =
    either (user_for name cs) (same c.name name) (user_for-not_empty name cs u) h
  where
    either :
        (o : Option Str) (b : Bool)
        → (o ≡ some u → same u [] ≡ false)
        → or_else o (if b then user_text c.security_context else none) ≡ some u
        → same u [] ≡ false
    either (some v) b ih g = ih g
    either none true ih g = user_text-not_empty c.security_context u g
    either none false ih g = cc
