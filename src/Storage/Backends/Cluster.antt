-- ===== src/Storage/Backends/Cluster.antt =====
-- The cluster that an embedded etcd server is made for.
use nanokube.Prelude.{
  ◌≡◌, refl, ◌∙◌, Bool, true, false, ◌&&◌, Option, none, some, List, [], ◌∷◌, leb, if◌then◌else◌,
  length, Str, str, same, same_refl, Dict, Result, ok, fail,
}
use nanokube.Storage.State.{Config, ServerConfig, Discovered, Library}
use nanokube.Storage.Backends.{
  cluster_state, etcd_config, server_config, etcd_made, peers_of, unless_failed, or_failed,
}

module _ {S Url Etcd Bridge Backend : Type 0} (lib : Library S Url Etcd Bridge Backend) where
  -- Whether there is a log of an earlier run.
  abbrev pub no_log : Option Str → Bool
  no_log none = false
  no_log (some e) = true

  abbrev pub wal_of : Str → Str
  wal_of dir = lib.join (dir ∷ str "member" ∷ str "wal" ∷ [])

  cluster_state-new :
      (dir : Str) (peers : Dict (List Url))
      → same lib.state_existing lib.state_new ≡ false
      → same (cluster_state lib dir peers) lib.state_new
        ≡ (leb (length peers) 1 && no_log (lib.stat (wal_of dir)))
  unfolding cluster_state
  cluster_state-new dir peers h = by_stat (leb (length peers) 1) (lib.stat (wal_of dir))
    where
      by_stat :
          (few : Bool) (log : Option Str)
          → same
              (if few
                then elim log [ none ↦ lib.state_existing | some e ↦ lib.state_new ]
                else lib.state_existing)
              lib.state_new
            ≡ (few && no_log log)
      by_stat true none = h
      by_stat true (some e) = same_refl lib.state_new
      by_stat false log = h

  made_from :
      (v : Option Str) (n : Result Str Etcd) (srv : Etcd)
      → unless_failed
          (str "embed: validate config: ")
          v
          (or_failed (str "embed: new server: ") n ok)
        ≡ ok srv
      → (v ≡ none) × (n ≡ ok srv)
  made_from none (ok e) srv h = (refl, h)
  made_from none (fail e) srv h = cc
  made_from (some e) n srv h = cc

  -- `IsNewCluster` tells whether the state of the cluster is new, and a cluster that exists is not
  -- new. If an etcd server is made for what discovery tells, its config is valid, and the server
  -- is made with: a new cluster exactly when the node has at most one peer and there is no log in
  -- its directory; the peers and the seed of discovery; the URLs of its own name among the peers;
  -- and the client URLs that are advertised.
  pub etcd_made-etcd_config :
      (dir : Str) (d : Discovered Url) (advertised listened : List Url) (srv : Etcd)
      → ((c : Config Url) → lib.is_new_cluster c ≡ same c.cluster_state lib.state_new)
      → same lib.state_existing lib.state_new ≡ false
      → etcd_made lib (etcd_config lib dir d advertised listened) d.peers ≡ ok srv
      → (cfg : ServerConfig Url) × (lib.new_server cfg ≡ ok srv)
        × (lib.validate (etcd_config lib dir d advertised listened) ≡ none)
        × (cfg.new_cluster ≡ (leb (length d.peers) 1 && no_log (lib.stat (wal_of dir))))
        × (cfg.initial_peer_urls_map ≡ d.peers)
        × (cfg.initial_cluster_token ≡ d.seed)
        × (cfg.peer_urls ≡ peers_of lib d.hostname d.peers)
        × (cfg.client_urls ≡ advertised)
  unfolding etcd_made etcd_config server_config
  etcd_made-etcd_config dir d advertised listened srv told differ h =
      let (valid, made) =
        made_from (lib.validate (etcd_config lib dir d advertised listened)) _ srv h in
      (
        server_config lib (etcd_config lib dir d advertised listened) d.peers,
        made,
        valid,
        told (etcd_config lib dir d advertised listened) ∙ cluster_state-new dir d.peers differ,
        refl,
        refl,
        refl,
        refl,
      )
