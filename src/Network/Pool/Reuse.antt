-- ===== src/Network/Pool/Reuse.antt =====
-- A network that a sandbox gives back is handed out again.
use nanokube.Prelude.{
  ◌≡◌, refl, sym, ap, ◌∙◌, subst, ◌≢◌, inl, inr, Bool, true, false, Option, none, some, arith,
  if◌then◌else◌, Option-cases, Str, Dict, lookup, insert, lookup-insert_self, Result, ok,
}
use nanokube.Network.Address.{mask_subnet}
use nanokube.Network.Pool.{
  from_ip, from_status, from_status_in, Service, Allocated, Network, uids_conflict,
  with_sandbox_uid, deallocate, reclaimable, default, default_given, claim, from_config,
  from_config_in, reclaim_or_allocate,
}
use nanokube.Network.Pool.Keys.{IsKeyed, insert-IsKeyed, reclaimable-lookup, reclaimable_complete}

-- The network is in the table; giving it back succeeds and frees its entry.
deallocate-lookup :
    (a : Allocated) (m : Dict Allocated)
    → lookup a.net.ip m ≡ some a
    → ((deallocate a m).0 ≡ true)
      × ((deallocate a m).1 ≡ insert a.net.ip (record a { sandbox_uid = none }) m)
unfolding deallocate with_sandbox_uid
deallocate-lookup a m e = elim (Option-cases a.sandbox_uid) [
  | inl free ↦ ground (arith, e)
  | inr (u, held) ↦ ground (arith, e)
]

with_sandbox_uid-free :
    (uid : Str) (a : Allocated) (m : Dict Allocated)
    → lookup a.net.ip m ≡ some a
    → a.sandbox_uid ≡ none
    → (with_sandbox_uid (some uid) a m).0 ≡ some a
unfolding with_sandbox_uid
with_sandbox_uid-free uid a m e free =
    let fine : uids_conflict a.sandbox_uid (some uid) ≡ false =
      ap (λ u. uids_conflict u (some uid)) free in
    rw (fine, e) refl

module _ {S : Type 0} (v : Service S) where
  -- What a call did that needed no new network.
  pub record Reuses (uid : Str) (n : Network S) (out : Network S × Result Str (Option Allocated))
      : Type 0 where
    pub given : Allocated
    pub answer : out.1 ≡ ok (some given)
    pub was_free : given.sandbox_uid ≡ none
    pub was_there : lookup given.net.ip n.networks ≡ some given
    pub service_kept : out.0.service ≡ n.service
    pub next_kept : out.0.next_ip ≡ n.next_ip

  claim-Reuses :
      (uid : Str) (a : Allocated) (n : Network S)
      → lookup a.net.ip n.networks ≡ some a
      → a.sandbox_uid ≡ none
      → Reuses uid n (claim v uid a n)
  unfolding claim
  claim-Reuses uid a n e free = record {
    given = a;
    answer = ap ok (with_sandbox_uid-free uid a n.networks e free);
    was_free = free;
    was_there = e;
    service_kept = refl;
    next_kept = refl;
  }

  reclaim_or_allocate-Reuses :
      (uid : Str) (n : Network S) (o : Option Allocated) {b : Allocated}
      → o ≡ some b
      → lookup b.net.ip n.networks ≡ some b
      → b.sandbox_uid ≡ none
      → Reuses uid n (reclaim_or_allocate v uid n o)
  reclaim_or_allocate-Reuses uid n none e l free = cc
  reclaim_or_allocate-Reuses uid n (some x) {b} e l free =
      let it : b ≡ x = cc in
      claim-Reuses uid x n (subst (λ y. lookup y.net.ip n.networks ≡ some y) it l)
        (subst (λ y. y.sandbox_uid ≡ none) it free)

  once-done :
      (b : Bool) (n k : Network S) {d : Allocated}
      → b ≡ true
      → n.default_net ≡ some d
      → default_given v (if b then n else k) (if b then n else k).default_net ≡ (n, some d)
  once-done true n k h e = ap (λ o. default_given v n o) e
  once-done false n k h e = cc

  default-done :
      (n : Network S) {d : Allocated}
      → n.default_done ≡ true
      → n.default_net ≡ some d
      → default v n ≡ (n, some d)
  unfolding default
  default-done n h e = once-done n.default_done n _ h e

  -- The default network exists, and a sandbox gives back a network of the table that is not the
  -- default one. Giving it back succeeds; and FromConfig, for a pod that is not from a file, then
  -- succeeds with a network of the table that was free: it makes no new network, so that the
  -- runtime's state and the next address stay as they are.
  pub from_config-deallocate :
      (uid : Str) (n : Network S) (a : Allocated) {d : Allocated}
      → n.default_done ≡ true
      → n.default_net ≡ some d
      → IsKeyed n.networks
      → lookup a.net.ip n.networks ≡ some a
      → a.id ≢ d.id
      → ((deallocate a n.networks).0 ≡ true)
        × Reuses uid
            (record n { networks = (deallocate a n.networks).1 })
            (from_config v uid false (record n { networks = (deallocate a n.networks).1 }))
  unfolding from_config
  from_config-deallocate uid n a {d} made net keyed here other =
      let (fine, left) = deallocate-lookup a n.networks here in
      let n' : Network S = record n { networks = (deallocate a n.networks).1 } in
      let freed : Allocated = record a { sandbox_uid = none } in
      let keyed' : IsKeyed n'.networks =
        subst (λ m. IsKeyed m) (sym left) (insert-IsKeyed freed n.networks keyed) in
      let there : lookup freed.net.ip n'.networks ≡ some freed =
        subst (λ m. lookup a.net.ip m ≡ some freed) (sym left)
          (lookup-insert_self a.net.ip freed n.networks) in
      let (b, found) = reclaimable_complete d.id a.net.ip n'.networks there refl other in
      let (l, free, _) = reclaimable-lookup d.id n'.networks keyed' found in
      (
        fine,
        subst (λ x. Reuses uid n' (from_config_in v uid false x)) (sym (default-done n' made net))
            (reclaim_or_allocate-Reuses uid n' (reclaimable d.id n'.networks) found l free),
      )

  -- A table with its default network, in which an entry stands under its address: the status of a
  -- pod that is not from a file leads to the entry if the pod's address is in its subnet, and nothing
  -- changes.
  from_status-lookup :
      (n : Network S) (a : Allocated) (ip : Str) {d : Allocated}
      → n.default_done ≡ true
      → n.default_net ≡ some d
      → lookup a.net.ip n.networks ≡ some a
      → mask_subnet ip ≡ a.net.ip
      → from_status v (some (false, some ip)) n ≡ (n, ok (some a))
  unfolding from_status from_ip
  from_status-lookup n a ip made net here inside =
      ap (λ x. from_status_in v false (some ip) x) (default-done n made net)
      ∙ ap (λ o. (n, ok o)) (ap (λ k. lookup k n.networks) inside ∙ here)
