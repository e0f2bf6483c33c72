-- ===== src/Backend/Admit/Aliases.antt =====
-- The aliases that Admit writes are read back from the annotations.
use nanokube.Prelude.{
  ◌≡◌, refl, sym, ap, ◌∙◌, inl, inr, Bool, true, false, ◌&&◌, not, Option, none, some, List, [],
  ◌∷◌, ◌++◌, arith, ◌==◌, Bool-cases, Str, same, Dict, insert, IsMap, insert-IsMap, lookup-insert,
  lookup-insert_self,
}
use nanokube.Docker.Images.{has_char}
use nanokube.Tags.Decimal.{ℤ}
use nanokube.Tags.Builder.{
  TagBuilder, HostAlias, full_key, get, hydrate, split_commas, dns_aliases, extra_hosts, host_lines,
  key_host_aliases, key_dns_aliases,
}
use nanokube.Tags.Builder.Reading.{get-hydrate, same-full_key}
use nanokube.Backend.Probes.{IntOrString}
use nanokube.Backend.Admit.{
  PodContainer, Pod, user_text, stash, stash_all, with_host_aliases, with_dns_aliases, join_commas,
  names_of, admit, context_key,
}

unfoldable pub no_commas : List Str → Bool
no_commas [] = true
no_commas (n ∷ ns) = not (has_char b',' n) && no_commas ns

split_commas-plain : (n : Str) → has_char b',' n ≡ false → split_commas n ≡ n ∷ []
unfolding split_commas
split_commas-plain [] h = refl
split_commas-plain (c ∷ n) h = elim (Bool-cases (c == b',')) [
  | inl e ↦ ground arith
  | inr e ↦ rw e (rw (split_commas-plain n (ground arith)) refl)
]

split_commas-front :
    (n rest : Str)
    → has_char b',' n ≡ false
    → split_commas (n ++ (b',' ∷ rest)) ≡ n ∷ split_commas rest
unfolding split_commas
split_commas-front [] rest h = refl
split_commas-front (c ∷ n) rest h = elim (Bool-cases (c == b',')) [
  | inl e ↦ ground arith
  | inr e ↦ rw e (rw (split_commas-front n rest (ground arith)) refl)
]

split_commas-join_commas :
    (n : Str) (ns : List Str) → no_commas (n ∷ ns) ≡ true → split_commas (join_commas n ns) ≡ n ∷ ns
unfolding join_commas no_commas
split_commas-join_commas n [] h = split_commas-plain n (ground arith)
split_commas-join_commas n (m ∷ ns) h =
    split_commas-front n (join_commas m ns) (ground arith)
    ∙ ap (◌∷◌ n) (split_commas-join_commas m ns (ground arith))

join_commas-not_empty :
    (n : Str) (ns : List Str) → same n [] ≡ false → same (join_commas n ns) [] ≡ false
unfolding join_commas same
join_commas-not_empty [] ns h = cc
join_commas-not_empty (c ∷ n) [] h = refl
join_commas-not_empty (c ∷ n) (m ∷ ns) h = refl

stash-IsMap :
    (prefix n : Str) (u : Option Str) (m : Dict Str) → IsMap m → IsMap (stash prefix n u m)
unfolding stash
stash-IsMap prefix n none m h = h
stash-IsMap prefix n (some u) m h = insert-IsMap (context_key prefix n) u m h

stash_all-IsMap :
    (prefix : Str) (cs : List PodContainer) (m : Dict Str) → IsMap m → IsMap (stash_all prefix cs m)
unfolding stash_all
stash_all-IsMap prefix [] m h = h
stash_all-IsMap prefix (c ∷ cs) m h =
    stash_all-IsMap prefix cs _ (stash-IsMap prefix c.name (user_text c.security_context) m h)

-- The two entries on top of others.
module _ (prefix driver n : Str) (ns : List Str) (text : Str) (m : Dict Str)
    (IsMap_m : IsMap m) where
  abbrev pub hosts : Dict Str
  hosts = insert (full_key prefix key_host_aliases) text m

  abbrev pub with_both : Dict Str
  with_both = insert (full_key prefix key_dns_aliases) (join_commas n ns) hosts

  with_both-IsMap : IsMap with_both
  with_both-IsMap =
      insert-IsMap (full_key prefix key_dns_aliases) _ hosts
        (insert-IsMap (full_key prefix key_host_aliases) text m IsMap_m)

  abbrev pub builder : TagBuilder
  builder = record { prefix = prefix; tags = with_both }

  with_both-dns : get (hydrate prefix driver with_both) key_dns_aliases ≡ join_commas n ns
  with_both-dns =
      get-hydrate builder driver key_dns_aliases (join_commas n ns) with_both-IsMap
        (lookup-insert_self (full_key prefix key_dns_aliases) (join_commas n ns) hosts)

  with_both-hosts : get (hydrate prefix driver with_both) key_host_aliases ≡ text
  unfolding same
  with_both-hosts = get-hydrate builder driver key_host_aliases text with_both-IsMap (
      lookup-insert (full_key prefix key_dns_aliases) (full_key prefix key_host_aliases) _ hosts
      ∙ rw (same-full_key prefix key_dns_aliases key_host_aliases)
          (lookup-insert_self (full_key prefix key_host_aliases) text m))

  with_both-read :
      (decode : Str → Option (List HostAlias)) (hs : List HostAlias)
      → no_commas (n ∷ ns) ≡ true
      → same n [] ≡ false
      → same text [] ≡ false
      → decode text ≡ some hs
      → (dns_aliases (hydrate prefix driver with_both) ≡ n ∷ ns)
        × (extra_hosts decode (hydrate prefix driver with_both) ≡ host_lines hs)
  unfolding dns_aliases extra_hosts
  with_both-read decode hs plain named there back = (
    rw (with_both-dns, join_commas-not_empty n ns named) (split_commas-join_commas n ns plain),
    rw (with_both-hosts, there, back) refl,
  )

-- The driver reads back, from the annotations that Admit left, the names of the pod's containers as
-- DNS aliases and the host aliases of its spec. The pod has both; no name has a comma and the first
-- is not empty; the aliases are marshalled to a text that is not empty and decodes to them.
pub admit-aliases :
    (prefix driver : Str) (marshal : List HostAlias → Str) (decode : Str → Option (List HostAlias))
    (int_value : IntOrString → ℤ) (ex : Str → Str) (pod : Pod) (c : PodContainer)
    (cs : List PodContainer) (h : HostAlias) (hs : List HostAlias)
    → IsMap pod.annotations
    → pod.containers ≡ c ∷ cs
    → pod.host_aliases ≡ h ∷ hs
    → no_commas (names_of (c ∷ cs)) ≡ true
    → same c.name [] ≡ false
    → same (marshal (h ∷ hs)) [] ≡ false
    → decode (marshal (h ∷ hs)) ≡ some (h ∷ hs)
    → (dns_aliases (hydrate prefix driver (admit prefix marshal int_value ex pod).annotations)
        ≡ names_of pod.containers)
      × (extra_hosts decode
            (hydrate prefix driver (admit prefix marshal int_value ex pod).annotations)
          ≡ host_lines pod.host_aliases)
unfolding admit with_dns_aliases with_host_aliases
admit-aliases prefix driver marshal decode int_value ex pod c cs h hs m has_names has_hosts plain
      named text back =
    let stashed : Dict Str =
      stash_all prefix pod.ephemeral_containers
        (stash_all prefix pod.containers (stash_all prefix pod.init_containers pod.annotations)) in
    let stashed-IsMap : IsMap stashed = stash_all-IsMap prefix pod.ephemeral_containers _ (
      stash_all-IsMap prefix pod.containers _
        (stash_all-IsMap prefix pod.init_containers pod.annotations m)) in
    let tags =
      with_both prefix driver c.name (names_of cs) (marshal (h ∷ hs)) stashed stashed-IsMap in
    let wrote : (admit prefix marshal int_value ex pod).annotations ≡ tags =
      ap
        (λ (x : List PodContainer).
          with_dns_aliases prefix (names_of x)
            (with_host_aliases prefix marshal pod.host_aliases stashed))
        has_names
      ∙ ap
          (λ (x : List HostAlias).
            insert (full_key prefix key_dns_aliases) (join_commas c.name (names_of cs))
              (with_host_aliases prefix marshal x stashed))
          has_hosts in
    let (dns, host) =
      with_both-read prefix driver c.name (names_of cs) (marshal (h ∷ hs)) stashed stashed-IsMap
        decode (h ∷ hs) plain named text back in
    (
      ap (λ t. dns_aliases (hydrate prefix driver t)) wrote
          ∙ dns
          ∙ sym (ap (λ (x : List PodContainer). names_of x) has_names),
      ap (λ t. extra_hosts decode (hydrate prefix driver t)) wrote
          ∙ host
          ∙ sym (ap (λ (x : List HostAlias). host_lines x) has_hosts),
    )
