-- ===== src/Storage/Samples.antt =====
-- The storage on a concrete library: a node without peers, and servers that count their calls.
use nanokube.Prelude.{
  ℕ, ◌+◌, ◌≡◌, refl, Bool, true, false, ◌&&◌, Option, none, some, List, [], ◌∷◌, leb, if◌then◌else◌,
  length, Str, str, same, has_prefix, or_else, Result, ok,
}
use nanokube.Storage.Flow.{gives, panics, ◌>>=◌, deref}
use nanokube.Storage.Client.{
  Gate, kv, auth, put, lease_grant, Server, ClientImpl, Servers, service_of, new_client,
  with_server, with_bridge, call_method,
}
use nanokube.Storage.Client.Served.{
  RpcCall, served_by, call_all, served, behind, asks_auth, call_all-with_bridge,
}
use nanokube.Storage.Client.Gates.{
  provide_all, provided_for, again, expected, call_method-provide_all,
}
use nanokube.Storage.State.{Config, ServerConfig, Discovered, TransportConfig, Library, StorageImpl}
use nanokube.Storage.Backends.{
  new_storage, sqlite_made, etcd_made, etcd_config, peers_of, parse_all,
}
use nanokube.Storage.Backends.Cluster.{no_log, wal_of, etcd_made-etcd_config}
use nanokube.Storage.Dispatch.{new_etcd3_client}
use nanokube.Storage.Peers.{by_etcd, raft_handler}
use nanokube.Storage.Once.{provides_discovery, asks_client, asks_raft, Continues}
use nanokube.Storage.Once.Runs.{run_storage, run_storage-Continues}
use nanokube.Storage.Hook.{new_etcd3_client-again}
use nanokube.Storage.Hook.Shared.{new_etcd3_client-raft_handler}
use nanokube.Storage.Hook.Sqlite.{new_etcd3_client-sqlite_failed}

-- It counts the calls, and answers with the request.
abbrev counting : Server ℕ
counting m text n = (n + 1, ok text)

abbrev no_rpc : Servers ℕ
no_rpc = record {
  of_kv = counting;
  of_watch = counting;
  of_lease = counting;
  of_maintenance = counting;
  of_cluster = counting;
  of_auth = counting;
}

abbrev default_config : Config Str
default_config = record {
  name = str "default";
  advertise_client_urls = [];
  advertise_peer_urls = [];
  auto_compaction_retention = [];
  dir = [];
  election_ms = 1000;
  initial_cluster = [];
  initial_cluster_token = [];
  initial_election_tick_advance = true;
  listen_client_urls = [];
  max_learners = 1;
  snapshot_catch_up_entries = 5000;
  snapshot_count = 10000;
  tick_ms = 100;
  cluster_state = str "new";
  pre_vote = true;
  strict_reconfig_check = true;
  max_snap_files = 5;
  max_wal_files = 5;
  max_txn_ops = 128;
  max_request_bytes = 1572864;
  auto_compaction_mode = str "periodic";
  auth_token = str "simple";
  warning_apply_duration = 100;
  server_feature_gate = [];
}

abbrev scheme_by : Bool → Bool → Str
scheme_by true _ = str "embed"
scheme_by false true = str "sqlite"
scheme_by false false = str "http"

abbrev sample : Library ℕ Str ℕ ℕ ℕ
sample = record {
  parse_url = λ t. ok t;
  scheme = λ u. scheme_by (has_prefix u (str "embed:")) (has_prefix u (str "sqlite:"));
  join = λ parts. elim parts [ [] ↦ [] | p ∷ ps ↦ p ];
  peers_string = λ peers. [];
  listen = ok 2379;
  mkdir_all = λ dir. some (str "read-only");
  sqlite_new = λ cfg. ok 3;
  start_backend = λ b. none;
  kine_new = λ b. b;
  bridge_server = λ b. counting;
  stat = λ path. some (str "not there");
  defaults = default_config;
  state_new = str "new";
  state_existing = str "existing";
  freelist_map_type = str "hashmap";
  validate = λ cfg. none;
  is_new_cluster = λ cfg. same cfg.cluster_state (str "new");
  election_ticks = λ cfg. 10;
  v2_deprecation = λ cfg. [];
  new_server = λ cfg. ok 7;
  ready = λ srv. true;
  v3rpc = λ srv. gives no_rpc;
}

abbrev node : Discovered Str
node = record { hostname = str "n1"; seed = str "s"; peers = (str "n1", str "http://n1" ∷ []) ∷ [] }

abbrev embed_transport : TransportConfig
embed_transport = record { server_list = str "embed:///data" ∷ [] }

abbrev sqlite_transport : TransportConfig
sqlite_transport = record { server_list = str "sqlite:///data" ∷ [] }

abbrev blank : StorageImpl ℕ Str ℕ ℕ ℕ
blank = new_storage

abbrev known : StorageImpl ℕ Str ℕ ℕ ℕ
known = record blank { discovery = some node }

abbrev client : ClientImpl ℕ
client = served_by no_rpc

-- What the hook leaves of a storage that knows its node.
abbrev running : StorageImpl ℕ Str ℕ ℕ ℕ
running = record known {
  transport = some embed_transport;
  client = some (some client);
  embedded = some (some 7);
  port = some 2379;
  started = 7 ∷ [];
}

asks : new_etcd3_client sample embed_transport known ≡ gives (running, ok client)
unfolding new_etcd3_client same has_prefix parse_all etcd_made with_server
asks = refl

new_etcd3_client-again_example :
    new_etcd3_client sample sqlite_transport running ≡ gives (running, ok client)
new_etcd3_client-again_example =
    new_etcd3_client-again sample embed_transport sqlite_transport known running (ok client) asks

new_etcd3_client-raft_handler_example :
    (etcd : Option ℕ) × (servers : Servers ℕ) × (c : ClientImpl ℕ) × (◌≡◌
      {A = Result Str (ClientImpl ℕ)}
      (ok client)
      (ok c))
    × (sample.v3rpc etcd ≡ gives servers)
    × ((calls : List RpcCall) (st : ℕ)
        → call_all c calls st ≡ gives (served (behind servers) calls st))
    × (raft_handler sample running ≡ (deref etcd >>= λ srv. gives (running, by_etcd srv)))
unfolding same has_prefix
new_etcd3_client-raft_handler_example =
    new_etcd3_client-raft_handler sample embed_transport known running (str "embed:///data") []
      (str "embed:///data") (ok client) refl refl refl refl refl asks

new_etcd3_client-sqlite_failed_example :
    (t : StorageImpl ℕ Str ℕ ℕ ℕ) × (c : ClientImpl ℕ) × (new_etcd3_client sample sqlite_transport
        blank
      ≡ gives (t, ok c))
    × (with_bridge (sample.bridge_server none) new_client ≡ gives c)
    × (t.cause ≡ or_else none (some (str "sqlite: create data dir: read-only")))
unfolding same has_prefix sqlite_made
new_etcd3_client-sqlite_failed_example =
    new_etcd3_client-sqlite_failed sample sqlite_transport blank (str "sqlite:///data") []
      (str "sqlite:///data") (str "sqlite: create data dir: read-only") refl refl refl refl refl
      refl refl refl

run_storage-Continues_example : Continues blank running
unfolding run_storage same has_prefix parse_all etcd_made with_server
run_storage-Continues_example =
    run_storage-Continues sample
      (provides_discovery node ∷ asks_client embed_transport ∷ asks_raft ∷ []) blank running refl

etcd_made-etcd_config_example :
    (cfg : ServerConfig Str) × (sample.new_server cfg ≡ ok 7)
    × (sample.validate (etcd_config sample (str "/data") node [] []) ≡ none)
    × (cfg.new_cluster
        ≡ (leb (length node.peers) 1 && no_log sample (sample.stat (wal_of sample (str "/data")))))
    × (cfg.initial_peer_urls_map ≡ node.peers)
    × (cfg.initial_cluster_token ≡ node.seed)
    × (cfg.peer_urls ≡ peers_of sample node.hostname node.peers)
    × (cfg.client_urls ≡ [])
unfolding same etcd_made
etcd_made-etcd_config_example =
    etcd_made-etcd_config sample (str "/data") node [] [] 7 (λ c. refl) refl refl

abbrev calls : List RpcCall
calls =
    record { method = put; text = str "a"; ended = false }
    ∷ record { method = lease_grant; text = str "b"; ended = true }
    ∷ []

call_all-with_bridge_example :
    (with_bridge counting new_client >>= λ c. call_all c calls 0)
    ≡ (if asks_auth calls then panics else gives (served (λ _. counting) calls 0))
call_all-with_bridge_example = call_all-with_bridge counting calls 0

-- A call of a gate that was not provided for, whose context is done.
abbrev provisions : List (Gate × Option (Server ℕ))
provisions = (kv, some counting) ∷ (auth, none) ∷ []

call_method-provide_all_example :
    (provide_all provisions new_client >>= λ c. call_method c lease_grant (str "a") true 0) ≡ (
      if again (λ _. false) provisions
      then panics
      else expected (provided_for (service_of lease_grant) provisions) true lease_grant (str "a") 0)
call_method-provide_all_example = call_method-provide_all provisions lease_grant (str "a") true 0
