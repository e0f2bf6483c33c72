-- ===== src/Storage/Backends.antt =====
-- The two backends of pkg/storage/storage.go: kine on SQLite and the embedded etcd, with the gates
-- that they wait for. What stands under a Once is taken as a whole.
pub mod Cluster
use nanokube.Prelude.{
  ℕ, zero, suc, ◌+◌, ◌-◌, ◌*◌, ◌/◌, ◌%◌, ◌^◌, ◌≤◌, ◌<◌, ◌≡◌, refl, sym, ap, ◌∙◌, subst, ◌≢◌, ◌↔◌,
  ◌⊎◌, inl, inr, Bool, true, false, ◌&&◌, ◌||◌, not, Option, none, some, List, [], ◌∷◌, ◌++◌, map,
  arith, ltb, leb, ◌==◌, if◌then◌else◌, ltb→lt, lt→ltb, leb→le, ==_iff, Bool-cases, Option-cases,
  length, take, drop, length-append, length-drop, length-take, take-append, drop-append,
  take-append-drop, All, All-append, All-split, Str, str, same, same_iff, same_refl, same_ne,
  member, append_left_cancel, has_prefix, has_prefix-append, Dict, lookup, insert, copy_into, IsMap,
  insert-IsMap, or_else, lookup-copy_into, lookup-insert, lookup-insert_self, lookup-insert_ne,
  value_of, Returns, Returns-some, Result, ok, fail, Result-cases,
}
use nanokube.Tags.Decimal.{pos, format_int}
use nanokube.Storage.Flow.{Flow, gives, waits, panics, ◌>>=◌, deref, await}
use nanokube.Storage.State.{
  Config, ServerConfig, DriversConfig, Discovered, TransportConfig, Library, StorageImpl,
}

-- `math.MaxInt`.
abbrev pub max_int : ℕ
max_int = 9223372036854775807

abbrev pub is_some {ℓ} : {A : Type ℓ} → Option A → Bool
is_some none = false
is_some (some a) = true

-- The transport, or the one that a storage is made with.
abbrev pub config_or_zero : Option TransportConfig → TransportConfig
config_or_zero none = record { server_list = [] }
config_or_zero (some cfg) = cfg

-- What a Once keeps.
abbrev pub first {ℓ} : {A : Type ℓ} → Option A → A → Option A
first none a = some a
first (some old) a = some old

module _ {S Url Etcd Bridge G : Type 0} where
  abbrev pub new_storage : StorageImpl S Url Etcd Bridge G
  new_storage = record {
    cause = none;
    client = none;
    embedded = none;
    sqlite_bridge = none;
    discovery = none;
    transport = none;
    rest = none;
    port = none;
    paths = [];
    started = [];
  }

  -- The first cause stays.
  unfoldable pub cancel_storage :
      Str → StorageImpl S Url Etcd Bridge G → StorageImpl S Url Etcd Bridge G
  cancel_storage reason s = record s { cause = or_else s.cause (some reason) }

module _ {S Url Etcd Bridge G : Type 0} where
  unfoldable pub with_discovery :
      Discovered Url → StorageImpl S Url Etcd Bridge G → StorageImpl S Url Etcd Bridge G
  with_discovery d s = record s { discovery = first s.discovery d }

  unfoldable pub with_transport :
      TransportConfig → StorageImpl S Url Etcd Bridge G → StorageImpl S Url Etcd Bridge G
  with_transport cfg s = record s { transport = first s.transport cfg }

  -- Behind a gate that the context has opened, the field is what it was made with: nil, or a
  -- transport with no servers.
  unfoldable pub discovered : StorageImpl S Url Etcd Bridge G → Flow (Discovered Url)
  discovered s = await (is_some s.discovery) (is_some s.cause) (deref s.discovery)

  unfoldable pub transport_of : StorageImpl S Url Etcd Bridge G → Flow TransportConfig
  transport_of s =
      await (is_some s.transport) (is_some s.cause) (gives (config_or_zero s.transport))

module _ {S Url Etcd Bridge G : Type 0} where
  abbrev pub port_once :
      Result Str ℕ
      → StorageImpl S Url Etcd Bridge G
      → Option ℕ
      → StorageImpl S Url Etcd Bridge G × ℕ
  port_once (ok p) s none = (record s { port = some p }, p)
  port_once (fail e) s none = (cancel_storage e (record s { port = some 0 }), 0)
  port_once _ s (some p) = (s, p)

-- Port.
module _ {S Url Etcd Bridge Backend G : Type 0} (lib : Library S Url Etcd Bridge Backend) where
  unfoldable pub storage_port :
      StorageImpl S Url Etcd Bridge G → StorageImpl S Url Etcd Bridge G × ℕ
  unfolding cancel_storage
  storage_port s = port_once lib.listen s s.port

-- The error, with what failed.
abbrev pub unless_failed {ℓ} : {A : Type ℓ} → Str → Option Str → Result Str A → Result Str A
unless_failed what none r = r
unless_failed what (some e) r = fail (what ++ e)

abbrev pub or_failed {ℓ κ} :
    {A : Type ℓ} {B : Type κ} → Str → Result Str A → (A → Result Str B) → Result Str B
or_failed what (ok a) f = f a
or_failed what (fail e) f = fail (what ++ e)

abbrev pub endpoints : ℕ → List Str
endpoints p = (str "http://127.0.0.1:" ++ format_int (pos p)) ∷ []

module _ {S Url Etcd Bridge Backend : Type 0} (lib : Library S Url Etcd Bridge Backend) where
  -- The error of a parse is dropped, and its nil followed.
  abbrev pub followed : Result Str Url → Flow Url
  followed (ok u) = gives u
  followed (fail e) = panics

  unfoldable pub parse_all : List Str → Flow (List Url)
  parse_all [] = gives []
  parse_all (ep ∷ eps) = followed (lib.parse_url ep) >>= λ u. parse_all eps >>= λ us. gives (u ∷ us)

  abbrev pub sqlite_config : Str → DriversConfig
  sqlite_config dir = record {
    data_source_name =
        lib.join (dir ∷ str "state.db" ∷ [])
        ++ str "?_journal=WAL&cache=shared&_busy_timeout=30000&_txlock=immediate";
    compact_interval = 0;
    compact_interval_jitter = 0;
    compact_timeout = 5;
    compact_min_retain = 1000;
    compact_batch_size = 1000;
    poll_batch_size = 500;
  }

  unfoldable pub sqlite_made : Str → Result Str Bridge
  sqlite_made dir = unless_failed (str "sqlite: create data dir: ") (lib.mkdir_all dir) (
      or_failed (str "sqlite: create backend: ") (lib.sqlite_new (sqlite_config dir)) (λ backend.
        unless_failed (str "sqlite: start backend: ") (lib.start_backend backend)
          (ok (lib.kine_new backend))))

  abbrev pub peers_of : Str → Dict (List Url) → List Url
  peers_of name peers = elim (lookup name peers) [ none ↦ [] | some urls ↦ urls ]

  -- A node with a peer joins; one without is new, unless it has a log from before.
  unfoldable pub cluster_state : Str → Dict (List Url) → Str
  cluster_state dir peers =
      if leb (length peers) 1
      then elim (lib.stat (lib.join (dir ∷ str "member" ∷ str "wal" ∷ []))) [
        | none ↦ lib.state_existing
        | some e ↦ lib.state_new
      ]
      else lib.state_existing

  unfoldable pub etcd_config : Str → Discovered Url → List Url → List Url → Config Url
  unfolding cluster_state
  etcd_config dir d advertised listened = record lib.defaults {
    name = d.hostname;
    advertise_client_urls = advertised;
    advertise_peer_urls = peers_of d.hostname d.peers;
    auto_compaction_retention = str "0";
    dir = dir;
    election_ms = 10000;
    initial_cluster = lib.peers_string d.peers;
    initial_cluster_token = d.seed;
    initial_election_tick_advance = false;
    listen_client_urls = listened;
    max_learners = max_int;
    snapshot_catch_up_entries = 100000;
    snapshot_count = 100000;
    tick_ms = 1000;
    cluster_state = cluster_state dir d.peers;
  }

  unfoldable pub server_config : Config Url → Dict (List Url) → ServerConfig Url
  server_config cfg peers = record {
    name = cfg.name;
    data_dir = cfg.dir;
    client_urls = cfg.advertise_client_urls;
    peer_urls = cfg.advertise_peer_urls;
    new_cluster = lib.is_new_cluster cfg;
    initial_peer_urls_map = peers;
    initial_cluster_token = cfg.initial_cluster_token;
    tick_ms = cfg.tick_ms;
    election_ticks = lib.election_ticks cfg;
    initial_election_tick_advance = cfg.initial_election_tick_advance;
    pre_vote = cfg.pre_vote;
    strict_reconfig_check = cfg.strict_reconfig_check;
    snapshot_count = cfg.snapshot_count;
    snapshot_catch_up_entries = cfg.snapshot_catch_up_entries;
    max_snap_files = cfg.max_snap_files;
    max_wal_files = cfg.max_wal_files;
    max_txn_ops = cfg.max_txn_ops;
    max_request_bytes = cfg.max_request_bytes;
    max_learners = cfg.max_learners;
    auto_compaction_retention = 0;
    auto_compaction_mode = cfg.auto_compaction_mode;
    backend_freelist_type = lib.freelist_map_type;
    auth_token = cfg.auth_token;
    warning_apply_duration = cfg.warning_apply_duration;
    v2_deprecation = lib.v2_deprecation cfg;
    server_feature_gate = cfg.server_feature_gate;
  }

  unfoldable pub etcd_made : Config Url → Dict (List Url) → Result Str Etcd
  etcd_made cfg peers =
      unless_failed (str "embed: validate config: ") (lib.validate cfg)
        (or_failed (str "embed: new server: ") (lib.new_server (server_config cfg peers)) ok)
