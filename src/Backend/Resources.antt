-- ===== src/Backend/Resources.antt =====
-- PrepareDynamicResources and UnprepareDynamicResources of pkg/backend.go: a pod's network, which its
-- sandbox joins.
use nanokube.Prelude.{
  ◌≡◌, refl, sym, ap, ◌∙◌, subst, Bool, false, Option, none, some, List, [], ◌∷◌, Str, str, same,
  Dict, lookup, insert, lookup-insert_self, value_of, Result, ok, fail,
}
use nanokube.Network.Pool.{Service, Network, Allocated, default, from_config}
use nanokube.Network.Pool.Keys.{IsKeyed}
use nanokube.Network.Pool.Exclusive.{Hands, from_config_exclusive}
use nanokube.Tags.Builder.{Codec, HostAlias, full_key, split_commas}
use nanokube.Host.{Ending, returns, panics}
use nanokube.Docker.Sandbox.Plan.{
  PodConfig, key_network, sandbox_wish, options_of, on_node, network_of,
}

abbrev pub is_from_file : Dict Str → Bool
is_from_file annotations =
    same (value_of (lookup (str "kubernetes.io/config.source") annotations)) (str "file")

-- The pool, the pod's annotations, and the error if there is one.
pub record Prepared (S : Type 0) : Type 0 where
  pub network : Network S
  pub annotations : Dict Str
  pub error : Option Str

module _ {S : Type 0} (prefix : Str) (v : Service S) where
  -- The network's id goes into the annotations; FromConfig may give no network and no error.
  abbrev pub annotated : Dict Str → Network S × Result Str (Option Allocated) → Ending (Prepared S)
  annotated m (n, fail e) = returns (record { network = n; annotations = m; error = some e })
  annotated m (n, ok none) = panics
  annotated m (n, ok (some a)) = returns (record {
    network = n;
    annotations = insert (full_key prefix key_network) a.id m;
    error = none;
  })

  -- PrepareDynamicResources, of the pod's uid and annotations.
  unfoldable pub prepare_dynamic_resources : Str → Dict Str → Network S → Ending (Prepared S)
  prepare_dynamic_resources uid m n = annotated m (from_config v uid (is_from_file m) n)

  unfoldable pub remove_networks : List Str → S → S
  remove_networks [] s = s
  remove_networks (id ∷ ids) s = remove_networks ids (v.remove_network s id).0

  abbrev pub removed_named : S → Option Str → S
  removed_named s none = s
  removed_named s (some ids) = remove_networks (split_commas ids) s

  -- UnprepareDynamicResources; errors are passed over, and the pool is not told.
  unfoldable pub unprepare_dynamic_resources : Dict Str → Network S → Network S
  unprepare_dynamic_resources m n = record n {
    service = removed_named n.service (lookup (full_key prefix key_network) m);
  }

-- The one network that a pod's sandbox joins.
pub record Joins (uid : Str) (m m' : Dict Allocated) (networks : List Str) : Type 0 where
  pub given : Allocated
  pub joined : networks ≡ given.id ∷ []
  pub hands : Hands uid given m m'

returned_inj : {A : Type 0} (x y : A) → returns x ≡ returns y → x ≡ y
returned_inj x y e = ap (of_returns x) e
  where
    of_returns : {A : Type 0} → A → Ending A → A
    of_returns d (returns a) = a
    of_returns d panics = d

some_error : {A : Type 0} (e : Str) → some e ≡ none → A
some_error e h = cc

module _ {S : Type 0} (prefix : Str) (v : Service S) where
  -- What `annotated` gives without an error.
  annotated-given :
      (m : Dict Str) (x : Network S × Result Str (Option Allocated)) (r : Prepared S)
      → annotated prefix v m x ≡ returns r
      → r.error ≡ none
      → (a : Allocated) × (x.1 ≡ ok (some a))
        × (r.network ≡ x.0)
        × (lookup (full_key prefix key_network) r.annotations ≡ some a.id)
  annotated-given m (n, fail e) r h fine =
      some_error e (ap (λ (p : Prepared S). p.error) (returned_inj _ r h) ∙ fine)
  annotated-given m (n, ok none) r h fine = cc
  annotated-given m (n, ok (some a)) r h fine =
      let e = returned_inj _ r h in
      (
        a,
        refl,
        sym (ap (λ (p : Prepared S). p.network) e),
        sym (ap (λ (p : Prepared S). lookup (full_key prefix key_network) p.annotations) e)
            ∙ lookup-insert_self (full_key prefix key_network) a.id m,
      )

  -- If PrepareDynamicResources of a pod that is not from a file succeeds, from a table whose entries
  -- stand under their own addresses, then a sandbox that is not on the host's network, and whose
  -- config has the network annotation as it was left, is asked for with one network. That network
  -- was free or this pod's own, is this pod's in the new table, and every other entry is as Default
  -- left it.
  pub prepare_dynamic_resources-Joins :
      (c : Codec) (driver uid : Str) (decode : Str → Option (List HostAlias)) (m : Dict Str)
      (n : Network S) (r : Prepared S) (q : PodConfig)
      → IsKeyed n.networks
      → is_from_file m ≡ false
      → prepare_dynamic_resources prefix v uid m n ≡ returns r
      → r.error ≡ none
      → on_node (options_of q.linux) ≡ false
      → lookup (full_key prefix key_network) q.config.annotations
        ≡ lookup (full_key prefix key_network) r.annotations
      → Joins uid
          (default v n).0.networks
          r.network.networks
          (sandbox_wish c prefix driver decode q).networks
  unfolding prepare_dynamic_resources sandbox_wish
  prepare_dynamic_resources-Joins c driver uid decode m n r q keyed plain prepared fine off_host
        kept =
      let by_config : annotated prefix v m (from_config v uid false n) ≡ returns r =
        sym (ap (λ b. annotated prefix v m (from_config v uid b n)) plain) ∙ prepared in
      let (a, gave, net, noted) = annotated-given m (from_config v uid false n) r by_config fine in
      record {
        given = a;
        joined = rw off_host (ap (λ o. network_of o ∷ []) (kept ∙ noted));
        hands =
            subst (λ (t : Network S). Hands uid a (default v n).0.networks t.networks) (sym net)
              (from_config_exclusive v uid n keyed gave);
      }
