-- ===== src/Discovery/Peers/Agree.antt =====
-- Nodes that are registered with the service find the same peers.
use nanokube.Prelude.{
  ◌≡◌, refl, sym, ap, ◌∙◌, subst, ◌⊎◌, inl, inr, Bool, true, false, Option, none, some, List, [],
  ◌∷◌, map, if◌then◌else◌, Str, same, same_iff, same_refl, has_prefix, Dict, lookup, or_else,
  lookup-insert,
}
use nanokube.Storage.Dispatch.{trim_prefix}
use nanokube.Discovery.Peers.{
  Tunnel, PeerUrl, ServiceReply, NetLibrary, peer_prefix, peer_key, peer_url, values_of,
  add_peer_at, add_peers, peers,
}

module _ (lib : NetLibrary) where
  -- What a value tells of a host.
  abbrev entry_at : Str → Str → Option Str → Option (List PeerUrl)
  entry_at h peer none = none
  entry_at h peer (some host) = if same host h then some (peer_url lib peer) else none

  abbrev entry : Str → Str → Option (List PeerUrl)
  entry h v =
      entry_at h (trim_prefix peer_prefix v) (lib.split_host_port (trim_prefix peer_prefix v))

  -- What the last of the values tells of a host.
  abbrev last_for : Str → List Str → Option (List PeerUrl)
  last_for h [] = none
  last_for h (v ∷ vs) = or_else (last_for h vs) (entry h v)

or_else_assoc {ℓ} :
    {A : Type ℓ} (a b c : Option A) → or_else (or_else a b) c ≡ or_else a (or_else b c)
or_else_assoc none b c = refl
or_else_assoc (some a) b c = refl

-- A tunnel that is among the registered ones.
abbrev pub Listed : Tunnel → List Tunnel → Type 0
Listed t [] = ⊥
Listed t (u ∷ us) = (u ≡ t) ⊎ Listed t us

module _ (lib : NetLibrary) where
  lookup-add_peer_at :
      (h peer : Str) (host : Option Str) (m : Dict (List PeerUrl))
      → lookup h (add_peer_at lib peer host m) ≡ or_else (entry_at lib h peer host) (lookup h m)
  lookup-add_peer_at h peer none m = refl
  lookup-add_peer_at h peer (some host) m =
      lookup-insert host h (peer_url lib peer) m ∙ by_test (same host h)
    where
      by_test :
          (b : Bool)
          → (if b then some (peer_url lib peer) else lookup h m)
            ≡ or_else (if b then some (peer_url lib peer) else none) (lookup h m)
      by_test true = refl
      by_test false = refl

  lookup-add_peers :
      (h : Str) (vs : List Str) (m : Dict (List PeerUrl))
      → lookup h (add_peers lib vs m) ≡ or_else (last_for lib h vs) (lookup h m)
  unfolding add_peers
  lookup-add_peers h [] m = refl
  lookup-add_peers h (v ∷ vs) m =
      let peer = trim_prefix peer_prefix v in
      lookup-add_peers h vs (add_peer_at lib peer (lib.split_host_port peer) m)
      ∙ ap (or_else (last_for lib h vs)) (lookup-add_peer_at h peer (lib.split_host_port peer) m)
      ∙ sym (or_else_assoc (last_for lib h vs) (entry lib h v) (lookup h m))

  -- The key of a tunnel tells of its host.
  entry-peer_key :
      (t : Tunnel)
      → lib.split_host_port (lib.join_host_port t.hostname t.port) ≡ some t.hostname
      → entry lib t.hostname (peer_key lib t)
        ≡ some (peer_url lib (lib.join_host_port t.hostname t.port))
  unfolding peer_key has_prefix
  entry-peer_key t splits =
      ap (λ o. entry_at lib t.hostname (lib.join_host_port t.hostname t.port) o) splits
      ∙ ap (λ b. if b then some (peer_url lib (lib.join_host_port t.hostname t.port)) else none)
          (same_refl t.hostname)

  or_else-Returns {ℓ} :
      {A : Type ℓ} (a b : Option A) (x : A) → b ≡ some x → (y : A) × (or_else a b ≡ some y)
  or_else-Returns none b x h = (x, h)
  or_else-Returns (some y) b x h = (y, refl)

  last_for-Listed :
      (t : Tunnel) (ts : List Tunnel)
      → lib.split_host_port (lib.join_host_port t.hostname t.port) ≡ some t.hostname
      → Listed t ts
      → (y : List PeerUrl) × (last_for lib t.hostname (map (peer_key lib) ts) ≡ some y)
  last_for-Listed t [] splits h = elim h [ ]
  last_for-Listed t (u ∷ us) splits (inl e) =
      or_else-Returns (last_for lib t.hostname (map (peer_key lib) us)) _ _
        (ap (λ v. entry lib t.hostname (peer_key lib v)) e ∙ entry-peer_key t splits)
  last_for-Listed t (u ∷ us) splits (inr h) =
      let (y, e) = last_for-Listed t us splits h in
      (y, ap (λ o. or_else o (entry lib t.hostname (peer_key lib u))) e)

  -- The entry that a node has of itself before it asks changes nothing.
  own_entry :
      (t : Tunnel) (ts : List Tunnel) (h : Str)
      → lib.split_host_port (lib.join_host_port t.hostname t.port) ≡ some t.hostname
      → Listed t ts
      → or_else
          (last_for lib h (map (peer_key lib) ts))
          (lookup h ((t.hostname, peer_url lib (lib.join_host_port t.hostname t.port)) ∷ []))
        ≡ last_for lib h (map (peer_key lib) ts)
  unfolding lookup
  own_entry t ts h splits listed = by_test (same t.hostname h) refl
    where
      url : List PeerUrl
      url = peer_url lib (lib.join_host_port t.hostname t.port)

      by_test :
          (b : Bool)
          → same t.hostname h ≡ b
          → or_else (last_for lib h (map (peer_key lib) ts)) (if b then some url else none)
            ≡ last_for lib h (map (peer_key lib) ts)
      by_test true e =
          let (y, q) = last_for-Listed t ts splits listed in
          let there : last_for lib h (map (peer_key lib) ts) ≡ some y =
            subst (λ k. last_for lib k (map (peer_key lib) ts) ≡ some y)
              ((same_iff t.hostname h).0 e) q in
          ap (λ o. or_else o (some url)) there ∙ sym there
      by_test false e = nothing_else (last_for lib h (map (peer_key lib) ts))
        where
          nothing_else : (o : Option (List PeerUrl)) → or_else o none ≡ o
          nothing_else none = refl
          nothing_else (some y) = refl

  peers-last_for :
      (t : Tunnel) (ts : List Tunnel) (reply : ServiceReply) (h : Str)
      → lib.split_host_port (lib.join_host_port t.hostname t.port) ≡ some t.hostname
      → Listed t ts
      → values_of lib reply ≡ map (peer_key lib) ts
      → lookup h (peers lib t reply) ≡ last_for lib h (map (peer_key lib) ts)
  unfolding peers
  peers-last_for t ts reply h splits listed told =
      lookup-add_peers h (values_of lib reply) _
      ∙ ap
          (λ vs.
            or_else (last_for lib h vs)
              (lookup h ((t.hostname, peer_url lib (lib.join_host_port t.hostname t.port)) ∷ [])))
          told
      ∙ own_entry t ts h splits listed

  -- Two nodes are among those that registered their tunnels with the service, which tells both of
  -- the keys that were registered; and `net` splits what it joined of the host and the port of each
  -- of the two. Then both have the same peers: each host leads to the same URLs, or to none, for the
  -- one as for the other.
  pub peers-agree :
      (a b : Tunnel) (ts : List Tunnel) (of_a of_b : ServiceReply)
      → lib.split_host_port (lib.join_host_port a.hostname a.port) ≡ some a.hostname
      → lib.split_host_port (lib.join_host_port b.hostname b.port) ≡ some b.hostname
      → Listed a ts
      → Listed b ts
      → values_of lib of_a ≡ map (peer_key lib) ts
      → values_of lib of_b ≡ map (peer_key lib) ts
      → (h : Str) → lookup h (peers lib a of_a) ≡ lookup h (peers lib b of_b)
  peers-agree a b ts of_a of_b splits_a splits_b a_there b_there told_a told_b h =
      peers-last_for a ts of_a h splits_a a_there told_a
      ∙ sym (peers-last_for b ts of_b h splits_b b_there told_b)
