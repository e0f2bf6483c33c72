-- ===== src/Storage/State.antt =====
-- The state of pkg/storage/storage.go, with what is made once, and what its libraries do. The logger
-- of etcd is left out.
use nanokube.Prelude.{ℕ, Bool, Option, List, Str, Dict, Result}
use nanokube.Storage.Flow.{Flow}
use nanokube.Storage.Client.{Server, ClientImpl, Servers}

-- The part of `embed.Config` that the source sets or reads; `defaults` below are its other values.
pub record Config (Url : Type 0) : Type 0 where
  pub name : Str
  pub advertise_client_urls : List Url
  pub advertise_peer_urls : List Url
  pub auto_compaction_retention : Str
  pub dir : Str
  pub election_ms : ℕ
  pub initial_cluster : Str
  pub initial_cluster_token : Str
  pub initial_election_tick_advance : Bool
  pub listen_client_urls : List Url
  pub max_learners : ℕ
  pub snapshot_catch_up_entries : ℕ
  pub snapshot_count : ℕ
  pub tick_ms : ℕ
  pub cluster_state : Str
  pub pre_vote : Bool
  pub strict_reconfig_check : Bool
  pub max_snap_files : ℕ
  pub max_wal_files : ℕ
  pub max_txn_ops : ℕ
  pub max_request_bytes : ℕ
  pub auto_compaction_mode : Str
  pub auth_token : Str
  pub warning_apply_duration : ℕ
  pub server_feature_gate : Str

-- `config.ServerConfig`.
pub record ServerConfig (Url : Type 0) : Type 0 where
  pub name : Str
  pub data_dir : Str
  pub client_urls : List Url
  pub peer_urls : List Url
  pub new_cluster : Bool
  pub initial_peer_urls_map : Dict (List Url)
  pub initial_cluster_token : Str
  pub tick_ms : ℕ
  pub election_ticks : ℕ
  pub initial_election_tick_advance : Bool
  pub pre_vote : Bool
  pub strict_reconfig_check : Bool
  pub snapshot_count : ℕ
  pub snapshot_catch_up_entries : ℕ
  pub max_snap_files : ℕ
  pub max_wal_files : ℕ
  pub max_txn_ops : ℕ
  pub max_request_bytes : ℕ
  pub max_learners : ℕ
  pub auto_compaction_retention : ℕ
  pub auto_compaction_mode : Str
  pub backend_freelist_type : Str
  pub auth_token : Str
  pub warning_apply_duration : ℕ
  pub v2_deprecation : Str
  pub server_feature_gate : Str

-- `drivers.Config`, with durations in seconds.
pub record DriversConfig : Type 0 where
  pub data_source_name : Str
  pub compact_interval : ℕ
  pub compact_interval_jitter : ℕ
  pub compact_timeout : ℕ
  pub compact_min_retain : ℕ
  pub compact_batch_size : ℕ
  pub poll_batch_size : ℕ

-- What discovery tells of the node and its peers.
pub record Discovered (Url : Type 0) : Type 0 where
  pub hostname : Str
  pub seed : Str
  pub peers : Dict (List Url)

pub record TransportConfig : Type 0 where
  pub server_list : List Str

-- `S` is the state behind the servers.
pub record Library (S Url Etcd Bridge Backend : Type 0) : Type 1 where
  pub parse_url : Str → Result Str Url
  pub scheme : Url → Str
  pub join : List Str → Str
  pub peers_string : Dict (List Url) → Str
  -- a free port of 127.0.0.1
  pub listen : Result Str ℕ
  pub mkdir_all : Str → Option Str
  pub sqlite_new : DriversConfig → Result Str Backend
  pub start_backend : Backend → Option Str
  pub kine_new : Backend → Bridge
  pub bridge_server : Option Bridge → Server S
  pub stat : Str → Option Str
  pub defaults : Config Url
  -- the constants of embed and of bolt
  pub state_new : Str
  pub state_existing : Str
  pub freelist_map_type : Str
  pub validate : Config Url → Option Str
  pub is_new_cluster : Config Url → Bool
  pub election_ticks : Config Url → ℕ
  pub v2_deprecation : Config Url → Str
  pub new_server : ServerConfig Url → Result Str Etcd
  -- whether the server comes to be ready
  pub ready : Etcd → Bool
  -- the servers of v3rpc; to ask for those of nil may panic
  pub v3rpc : Option Etcd → Flow (Servers S)

-- What is made once is `none` until its Once has run; the outer `Option` of a backend is its Once,
-- and the inner one the pointer. `G` is the type of the API server's REST options getters.
pub record StorageImpl (S Url Etcd Bridge G : Type 0) : Type 0 where
  -- the cause, if the context is cancelled
  pub cause : Option Str
  pub client : Option (Option (ClientImpl S))
  pub embedded : Option (Option Etcd)
  pub sqlite_bridge : Option (Option Bridge)
  pub discovery : Option (Discovered Url)
  pub transport : Option TransportConfig
  pub rest : Option G
  pub port : Option ℕ
  pub paths : List Str
  -- the etcd servers that were started; each is stopped as the context is done
  pub started : List Etcd
