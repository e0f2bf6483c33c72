-- ===== src/Backend/Admit.antt =====
-- Admit of pkg/backend.go: what it writes into a pod before the kubelet runs it. A pod is what Admit
-- reads of it; `marshal`, `expand_env`, `home` and `abs` are json.Marshal, os.ExpandEnv,
-- homedir.Expand and filepath.Abs, and fail with `none`. A nil map reads as an empty one.
pub mod Reading
pub mod Aliases
use nanokube.Prelude.{
  ℕ, zero, suc, ◌+◌, ◌-◌, ◌*◌, ◌/◌, ◌%◌, ◌^◌, ◌≤◌, ◌<◌, ◌≡◌, refl, sym, ap, ◌∙◌, subst, ◌≢◌, ◌↔◌,
  ◌⊎◌, inl, inr, Bool, true, false, ◌&&◌, ◌||◌, not, Option, none, some, List, [], ◌∷◌, ◌++◌, map,
  arith, ltb, leb, ◌==◌, if◌then◌else◌, ltb→lt, lt→ltb, leb→le, ==_iff, Bool-cases, Option-cases,
  length, take, drop, length-append, length-drop, length-take, take-append, drop-append,
  take-append-drop, All, All-append, All-split, Str, str, same, same_iff, same_refl, same_ne,
  member, append_left_cancel, has_prefix, has_prefix-append, Dict, lookup, insert, copy_into, IsMap,
  insert-IsMap, or_else, lookup-copy_into, lookup-insert, lookup-insert_self, lookup-insert_ne,
  value_of, Returns, Returns-some, Result, ok, fail, Result-cases,
}
use nanokube.Tags.Decimal.{ℤ, format_int}
use nanokube.Tags.Builder.{
  HostAlias, full_key, key_security_context, key_host_aliases, key_dns_aliases,
}
use nanokube.Backend.Probes.{IntOrString, Probe, rewrite_probe}

pub record SecurityContext : Type 0 where
  pub run_as_user : Option ℤ
  pub run_as_group : Option ℤ

pub record PodContainer : Type 0 where
  pub name : Str
  pub security_context : Option SecurityContext
  pub liveness_probe : Option Probe
  pub readiness_probe : Option Probe
  pub startup_probe : Option Probe
  -- the paths of its volume mounts
  pub mount_paths : List Str

-- A volume is its host path, if it has one.
pub record Pod : Type 0 where
  pub annotations : Dict Str
  pub init_containers : List PodContainer
  pub containers : List PodContainer
  pub ephemeral_containers : List PodContainer
  pub host_aliases : List HostAlias
  pub volumes : List (Option Str)

abbrev pub user_of : Option ℤ → Option ℤ → Option Str
user_of none _ = none
user_of (some uid) none = some (format_int uid)
user_of (some uid) (some gid) = some (format_int uid ++ (b':' ∷ format_int gid))

abbrev pub user_text : Option SecurityContext → Option Str
user_text none = none
user_text (some sc) = user_of sc.run_as_user sc.run_as_group

abbrev pub context_key : Str → Str → Str
context_key prefix name = full_key prefix key_security_context ++ (b'/' ∷ name)

-- `stashSC`.
unfoldable pub stash : Str → Str → Option Str → Dict Str → Dict Str
stash prefix name none m = m
stash prefix name (some user) m = insert (context_key prefix name) user m

unfoldable pub stash_all : Str → List PodContainer → Dict Str → Dict Str
stash_all prefix [] m = m
stash_all prefix (c ∷ cs) m =
    stash_all prefix cs (stash prefix c.name (user_text c.security_context) m)

unfoldable pub with_host_aliases :
    Str → (List HostAlias → Str) → List HostAlias → Dict Str → Dict Str
with_host_aliases prefix marshal [] m = m
with_host_aliases prefix marshal (a ∷ rest) m =
    insert (full_key prefix key_host_aliases) (marshal (a ∷ rest)) m

-- `strings.Join(names, ",")`.
unfoldable pub join_commas : Str → List Str → Str
join_commas s [] = s
join_commas s (t ∷ ts) = s ++ (b',' ∷ join_commas t ts)

abbrev pub names_of : List PodContainer → List Str
names_of cs = map (λ (c : PodContainer). c.name) cs

unfoldable pub with_dns_aliases : Str → List Str → Dict Str → Dict Str
with_dns_aliases prefix [] m = m
with_dns_aliases prefix (n ∷ ns) m = insert (full_key prefix key_dns_aliases) (join_commas n ns) m

-- `expand`; the path stays as it is where a step fails.
abbrev pub absolute : (Str → Option Str) → Str → Option Str → Str
absolute abs orig none = orig
absolute abs orig (some p) = elim (abs p) [ none ↦ orig | some q ↦ q ]

abbrev pub expand : (Str → Str) → (Str → Option Str) → (Str → Option Str) → Str → Str
expand expand_env home abs path = absolute abs path (home (expand_env path))

abbrev pub expanded : (Str → Str) → Str → Str
expanded ex path = if same path [] then path else ex path

module _ (prefix : Str) (marshal : List HostAlias → Str) (int_value : IntOrString → ℤ)
    (ex : Str → Str) where
  abbrev pub probe_of : Option Probe → Option Probe
  probe_of none = none
  probe_of (some p) = some (rewrite_probe int_value p)

  abbrev pub volume_of : Option Str → Option Str
  volume_of none = none
  volume_of (some path) = some (expanded ex path)

  abbrev pub expanded_container : PodContainer → PodContainer
  expanded_container c = record c {
    liveness_probe = probe_of c.liveness_probe;
    readiness_probe = probe_of c.readiness_probe;
    startup_probe = probe_of c.startup_probe;
    mount_paths = map (expanded ex) c.mount_paths;
  }

  -- `Admit`; it admits every pod.
  unfoldable pub admit : Pod → Pod
  admit pod = record pod {
    annotations = with_dns_aliases prefix (names_of pod.containers) (
        with_host_aliases prefix marshal pod.host_aliases (
          stash_all prefix pod.ephemeral_containers (
            stash_all prefix pod.containers
              (stash_all prefix pod.init_containers pod.annotations))));
    containers = map expanded_container pod.containers;
    volumes = map volume_of pod.volumes;
  }
