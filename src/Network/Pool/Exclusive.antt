-- ===== src/Network/Pool/Exclusive.antt =====
-- FromConfig never gives a sandbox a network that another sandbox holds.
use nanokube.Prelude.{
  ◌≡◌, refl, sym, ap, ◌∙◌, subst, ◌≢◌, ◌⊎◌, inl, inr, Bool, true, false, Option, none, some, arith,
  if◌then◌else◌, Bool-cases, Str, same_iff, Dict, lookup, lookup-insert_self, lookup-insert_ne,
  Result, ok, fail,
}
use nanokube.Network.Address.{subnet_hosts, advance}
use nanokube.Network.Pool.{
  Found, Service, Allocated, Network, uids_conflict, with_sandbox_uid, reclaimable,
  new_allocated_network, default, claim, allocate, from_config, fresh_allocated, make_default,
  load_or_store, network_found, set_default, static_created, reserved_removed, reserved_found,
  reserved_created, default_made, default_given, next_allocated, next_created, reclaim_or_allocate,
  from_config_in,
}
use nanokube.Network.Pool.Keys.{IsKeyed, insert-IsKeyed, reclaimable-lookup, lookup-IsKeyed}

-- The table `m'` is `m` with the network of `a` handed to the sandbox `uid`, and nobody else's.
pub record Hands (uid : Str) (a : Allocated) (m m' : Dict Allocated) : Type 0 where
  -- the entry is the sandbox's now
  pub holds : lookup a.net.ip m' ≡ some (record a { sandbox_uid = some uid })
  -- it was free before, or this sandbox's already
  pub was_free : (a.sandbox_uid ≡ none) ⊎ (a.sandbox_uid ≡ some uid)
  -- the old table has this very entry under its address, or none
  pub before : (lookup a.net.ip m ≡ some a) ⊎ (lookup a.net.ip m ≡ none)
  -- every other entry is as it was
  pub others : (k : Str) → k ≢ a.net.ip → lookup k m' ≡ lookup k m

no_conflict :
    (held : Option Str) (uid : Str)
    → uids_conflict held (some uid) ≡ false
    → (held ≡ none) ⊎ (held ≡ some uid)
no_conflict none uid h = inl refl
no_conflict (some u) uid h = inr (ground (arith, same_iff u uid))

with_sandbox_uid-Hands :
    (uid : Str) (a : Allocated) (m : Dict Allocated) {p : Allocated}
    → (with_sandbox_uid (some uid) a m).0 ≡ some p
    → (lookup a.net.ip m ≡ some a) ⊎ (lookup a.net.ip m ≡ none)
    → (lookup a.net.ip m ≡ some p) × Hands uid a m (with_sandbox_uid (some uid) a m).1
unfolding with_sandbox_uid
with_sandbox_uid-Hands uid a m e b = elim (Bool-cases (uids_conflict a.sandbox_uid (some uid))) [
  | inl refused ↦ absurd (ground arith)
  | inr fine ↦ rw fine (
    ground arith,
    record {
      holds = lookup-insert_self a.net.ip _ m;
      was_free = no_conflict a.sandbox_uid uid fine;
      before = b;
      others = λ k h. lookup-insert_ne a.net.ip k _ m (λ e. h (sym e));
    },
  )
]

module _ {E A : Type 0} where
  ok_injective : {a b : A} → ◌≡◌ {A = Result E A} (ok a) (ok b) → a ≡ b
  ok_injective e = cc

module _ {S : Type 0} (v : Service S) where
  claim-Hands :
      (uid : Str) (a : Allocated) (n : Network S) {p : Allocated}
      → lookup a.net.ip n.networks ≡ some a
      → (claim v uid a n).1 ≡ ok (some p)
      → (p ≡ a) × Hands uid p n.networks (claim v uid a n).0.networks
  unfolding claim
  claim-Hands uid a n {p = p} here e =
      let (there, h) =
        with_sandbox_uid-Hands uid a n.networks {p = p} (ok_injective e) (inl here) in
      let it : a ≡ p = ground (arith, here, there) in
      (sym it, subst (λ x. Hands uid x n.networks (claim v uid a n).0.networks) it h)

  -- What `newAllocatedNetwork` gives is the entry under its address, and it adds at most that.
  record Enters (a : Allocated) (n n' : Network S) : Type 0 where
    entry : lookup a.net.ip n'.networks ≡ some a
    keyed : IsKeyed n'.networks
    before : (lookup a.net.ip n.networks ≡ some a) ⊎ (lookup a.net.ip n.networks ≡ none)
    rest : (k : Str) → k ≢ a.net.ip → lookup k n'.networks ≡ lookup k n.networks

  AfterNew : Network S → Network S × Result Str Allocated → Type 0
  AfterNew n (n', fail e) = n'.networks ≡ n.networks
  AfterNew n (n', ok a) = Enters a n n'

  load_or_store-AfterNew :
      (id : Str) (f : Found) (n : Network S) (o : Option Allocated)
      → IsKeyed n.networks
      → lookup f.net.ip n.networks ≡ o
      → AfterNew n (load_or_store v id f n o)
  unfolding AfterNew
  load_or_store-AfterNew id f n (some a) h e = record {
    entry =
        subst (λ x. lookup x n.networks ≡ some a) (sym (lookup-IsKeyed f.net.ip n.networks h e)) e;
    keyed = h;
    before = inl (
        subst (λ x. lookup x n.networks ≡ some a) (sym (lookup-IsKeyed f.net.ip n.networks h e)) e);
    rest = λ k d. refl;
  }
  load_or_store-AfterNew id f n none h e = record {
    entry = lookup-insert_self f.net.ip _ n.networks;
    keyed = insert-IsKeyed (fresh_allocated id f) n.networks h;
    before = inr e;
    rest = λ k d. lookup-insert_ne f.net.ip k _ n.networks (λ e. d (sym e));
  }

  network_found-AfterNew :
      (id : Str) (n : Network S) (r : Result Str Found)
      → IsKeyed n.networks
      → AfterNew n (network_found v id n r)
  unfolding AfterNew
  network_found-AfterNew id n (fail e) h = refl
  network_found-AfterNew id n (ok f) h = load_or_store-AfterNew id f n _ h refl

  new_allocated_network-AfterNew :
      (id : Str) (n : Network S) → IsKeyed n.networks → AfterNew n (new_allocated_network v id n)
  unfolding new_allocated_network
  new_allocated_network-AfterNew id n h = network_found-AfterNew id n _ h

  -- `Default` keeps the table keyed, whatever the service answers.
  set_default-IsKeyed :
      (base : Str) (n : Network S) (r : Network S × Result Str Allocated)
      → IsKeyed n.networks
      → AfterNew n r
      → IsKeyed (set_default v base r).networks
  unfolding AfterNew
  set_default-IsKeyed base n (n', fail e) h x = subst (λ m. IsKeyed m) (sym x) h
  set_default-IsKeyed base n (n', ok a) h x = x.keyed

  static_created-IsKeyed :
      (base : Str) (n : Network S) (r : S × Result Str Str)
      → IsKeyed n.networks
      → IsKeyed (static_created v base n r).networks
  static_created-IsKeyed base n (s, fail e) h = h
  static_created-IsKeyed base n (s, ok id) h =
      let n' : Network S = record n { service = s } in
      set_default-IsKeyed base n' (new_allocated_network v id n') h
        (new_allocated_network-AfterNew id n' h)

  reserved_removed-IsKeyed :
      (base : Str) (n : Network S) (r : S × Option Str)
      → IsKeyed n.networks
      → IsKeyed (reserved_removed v base n r).networks
  reserved_removed-IsKeyed base n (s, some why) h = h
  reserved_removed-IsKeyed base n (s, none) h =
      static_created-IsKeyed base (record n { service = s }) _ h

  reserved_found-IsKeyed :
      (id : Str) (n : Network S) (r : Result Str Found)
      → IsKeyed n.networks
      → IsKeyed (reserved_found v id n r).networks
  reserved_found-IsKeyed id n (fail e) h = h
  reserved_found-IsKeyed id n (ok f) h = reserved_removed-IsKeyed f.net.ip n _ h

  reserved_created-IsKeyed :
      (n : Network S) (r : S × Result Str Str)
      → IsKeyed n.networks
      → IsKeyed (reserved_created v n r).networks
  reserved_created-IsKeyed n (s, fail e) h = h
  reserved_created-IsKeyed n (s, ok id) h = reserved_found-IsKeyed id (record n { service = s }) _ h

  default_given-networks :
      (n : Network S) (d : Option Allocated) → (default_given v n d).0.networks ≡ n.networks
  default_given-networks n none = refl
  default_given-networks n (some d) = refl

  once-IsKeyed :
      (b : Bool) (n n' : Network S)
      → IsKeyed n.networks
      → IsKeyed n'.networks
      → IsKeyed (if b then n else n').networks
  once-IsKeyed true n n' h h' = h
  once-IsKeyed false n n' h h' = h'

  default-IsKeyed : (n : Network S) → IsKeyed n.networks → IsKeyed (default v n).0.networks
  unfolding default make_default
  default-IsKeyed n h =
      subst (λ m. IsKeyed m) (sym (default_given-networks (default_made v n) _))
        (once-IsKeyed n.default_done n _ h (reserved_created-IsKeyed n _ h))

  -- The network that a call gives, and the table that it leaves.
  Gives : Str → Dict Allocated → Network S × Result Str (Option Allocated) → Type 0
  Gives uid m (n, r) = (p : Allocated) → r ≡ ok (some p) → Hands uid p m n.networks

  claim-Gives :
      (uid : Str) (a : Allocated) (n : Network S)
      → lookup a.net.ip n.networks ≡ some a
      → Gives uid n.networks (claim v uid a n)
  unfolding Gives
  claim-Gives uid a n here p e = (claim-Hands uid a n here e).1

  -- A claim of an entry that a new network has just made.
  after_new-Gives :
      (uid : Str) (a : Allocated) (n n' : Network S)
      → Enters a n n'
      → Gives uid n.networks
          (claim v uid a (record n' { next_ip = advance n'.next_ip subnet_hosts }))
  unfolding Gives
  after_new-Gives uid a n n' x p e =
      let n'' : Network S = record n' { next_ip = advance n'.next_ip subnet_hosts } in
      let (p≡a, h) = claim-Hands uid a n'' {p = p} x.entry e in
      record {
        holds = h.holds;
        was_free = h.was_free;
        before =
            subst (λ y. (lookup y.net.ip n.networks ≡ some y) ⊎ (lookup y.net.ip n.networks ≡ none))
              (sym p≡a) x.before;
        others = λ k d. h.others k d ∙ x.rest k (λ q. d (q ∙ ap (λ y. y.net.ip) (sym p≡a)));
      }

  next_allocated-Gives :
      (uid : Str) (n : Network S) (r : Network S × Result Str Allocated)
      → AfterNew n r
      → Gives uid n.networks (next_allocated v uid r)
  unfolding Gives AfterNew
  next_allocated-Gives uid n (n', fail e) x p q = cc
  next_allocated-Gives uid n (n', ok a) x p q = after_new-Gives uid a n n' x p q

  next_created-Gives :
      (uid : Str) (n : Network S) (r : S × Result Str Str)
      → IsKeyed n.networks
      → Gives uid n.networks (next_created v uid n r)
  unfolding Gives
  next_created-Gives uid n (s, fail e) h p q = cc
  next_created-Gives uid n (s, ok id) h p q =
      let n' : Network S = record n { service = s } in
      next_allocated-Gives uid n' (new_allocated_network v id n')
        (new_allocated_network-AfterNew id n' h) p q

  reclaim_or_allocate-Gives :
      (uid : Str) (n : Network S) (o : Option Allocated)
      → IsKeyed n.networks
      → ((a : Allocated) → o ≡ some a → lookup a.net.ip n.networks ≡ some a)
      → Gives uid n.networks (reclaim_or_allocate v uid n o)
  unfolding allocate
  reclaim_or_allocate-Gives uid n none h f = next_created-Gives uid n _ h
  reclaim_or_allocate-Gives uid n (some a) h f = claim-Gives uid a n (f a refl)

  from_config_in-Gives :
      (uid : Str) (r : Network S × Option Allocated)
      → IsKeyed r.0.networks
      → Gives uid r.0.networks (from_config_in v uid false r)
  unfolding Gives
  from_config_in-Gives uid (n, none) h p q = cc
  from_config_in-Gives uid (n, some d) h p q =
      reclaim_or_allocate-Gives uid n (reclaimable d.id n.networks) h
        (λ a e. (reclaimable-lookup d.id n.networks h e).0) p q

  -- If FromConfig gives the sandbox of a pod that is not from a file a network, from a table whose
  -- entries stand under their own addresses, then that network was free or this sandbox's own. It
  -- stood in the table that Default left, or nothing stood under its address. It is this sandbox's
  -- in the new table, and every other entry is as Default left it.
  pub from_config_exclusive :
      (uid : Str) (n : Network S) {p : Allocated}
      → IsKeyed n.networks
      → (from_config v uid false n).1 ≡ ok (some p)
      → Hands uid p (default v n).0.networks (from_config v uid false n).0.networks
  unfolding from_config Gives
  from_config_exclusive uid n {p = p} h e =
      from_config_in-Gives uid (default v n) (default-IsKeyed n h) p e
