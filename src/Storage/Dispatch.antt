-- ===== src/Storage/Dispatch.antt =====
-- What pkg/storage/storage.go does with a transport: the backend of its scheme, the client, the
-- hook of the API server's factory.
use nanokube.Prelude.{
  Option, none, some, List, [], ◌∷◌, ◌++◌, if◌then◌else◌, length, drop, Str, str, same, has_prefix,
  Result, ok, fail,
}
use nanokube.Storage.Flow.{Flow, gives, panics, ◌>>=◌, await}
use nanokube.Storage.Client.{ClientImpl, new_client, with_server, with_bridge}
use nanokube.Storage.State.{TransportConfig, Library, StorageImpl}
use nanokube.Storage.Backends.{
  is_some, cancel_storage, with_transport, discovered, transport_of, storage_port, endpoints,
  parse_all, sqlite_made, etcd_config, etcd_made,
}

abbrev pub trim_prefix : Str → Str → Str
trim_prefix p s = if has_prefix s p then drop (length p) s else s

-- `ServerList[0]`.
abbrev pub head_of : List Str → Flow Str
head_of [] = panics
head_of (x ∷ xs) = gives x

abbrev pub cause_text : Option Str → Str
cause_text none = str "%!w(<nil>)"
cause_text (some e) = e

module _ {S Url Etcd Bridge G : Type 0} where
  abbrev pub sqlite_once :
      Result Str Bridge
      → Option (Option Bridge)
      → StorageImpl S Url Etcd Bridge G
      → StorageImpl S Url Etcd Bridge G × Option Bridge
  sqlite_once made (some bridge) s = (s, bridge)
  sqlite_once (ok bridge) none s = (record s { sqlite_bridge = some (some bridge) }, some bridge)
  sqlite_once (fail e) none s = (cancel_storage e (record s { sqlite_bridge = some none }), none)

  abbrev pub kept_client :
      StorageImpl S Url Etcd Bridge G
      → ClientImpl S
      → StorageImpl S Url Etcd Bridge G × Option (ClientImpl S)
  kept_client s c = (record s { client = some (some c) }, some c)

  abbrev pub refused_client :
      Str
      → StorageImpl S Url Etcd Bridge G
      → StorageImpl S Url Etcd Bridge G × Option (ClientImpl S)
  refused_client e s = (cancel_storage e (record s { client = some none }), none)

  -- The client, whose wrapper for Kubernetes is never nil, or the error.
  abbrev pub available :
      StorageImpl S Url Etcd Bridge G × Option (ClientImpl S)
      → StorageImpl S Url Etcd Bridge G × Result Str (ClientImpl S)
  available (s, none) = (s, fail (str "embedded etcd client unavailable: " ++ cause_text s.cause))
  available (s, some c) = (s, ok c)

module _ {S Url Etcd Bridge Backend G : Type 0} (lib : Library S Url Etcd Bridge Backend) where
  -- ClientURLs.
  unfoldable pub client_urls :
      StorageImpl S Url Etcd Bridge G → Flow (StorageImpl S Url Etcd Bridge G × List Url)
  unfolding storage_port
  client_urls s =
      let (s', p) = storage_port lib s in parse_all lib (endpoints p) >>= λ urls. gives (s', urls)

  -- sqliteEtcd.
  unfoldable pub sqlite_etcd :
      Str → StorageImpl S Url Etcd Bridge G → StorageImpl S Url Etcd Bridge G × Option Bridge
  unfolding cancel_storage
  sqlite_etcd dir s = sqlite_once (sqlite_made lib dir) s.sqlite_bridge s

  -- The server is started, and waited for until it is ready or the context is done.
  abbrev pub etcd_started :
      Result Str Etcd
      → StorageImpl S Url Etcd Bridge G
      → Flow (StorageImpl S Url Etcd Bridge G × Option Etcd)
  etcd_started (ok srv) s =
      await (lib.ready srv) (is_some s.cause)
        (gives (record s { embedded = some (some srv); started = srv ∷ s.started }, some srv))
  etcd_started (fail e) s = gives (cancel_storage e (record s { embedded = some none }), none)

  abbrev pub embedded_once :
      Str
      → Option (Option Etcd)
      → StorageImpl S Url Etcd Bridge G
      → Flow (StorageImpl S Url Etcd Bridge G × Option Etcd)
  embedded_once dir (some embedded) s = gives (s, embedded)
  embedded_once dir none s = discovered s >>= λ d. client_urls s >>= λ one.
      client_urls one.0 >>= λ two.
      etcd_started (etcd_made lib (etcd_config lib dir d one.1 two.1) d.peers) two.0

  -- embeddedEtcd.
  unfoldable pub embedded_etcd :
      Str → StorageImpl S Url Etcd Bridge G → Flow (StorageImpl S Url Etcd Bridge G × Option Etcd)
  unfolding client_urls discovered cancel_storage
  embedded_etcd dir s = embedded_once dir s.embedded s

  abbrev pub embed_client :
      Str
      → StorageImpl S Url Etcd Bridge G
      → Flow (StorageImpl S Url Etcd Bridge G × Option (ClientImpl S))
  embed_client text s = embedded_etcd (trim_prefix (str "embed://") text) s >>= λ made.
      lib.v3rpc made.1 >>= λ servers.
      with_server servers new_client >>= λ c. gives (kept_client made.0 c)

  abbrev pub sqlite_client :
      Str
      → StorageImpl S Url Etcd Bridge G
      → Flow (StorageImpl S Url Etcd Bridge G × Option (ClientImpl S))
  sqlite_client text s =
      let made = sqlite_etcd (trim_prefix (str "sqlite://") text) s in
      with_bridge (lib.bridge_server made.1) new_client >>= λ c. gives (kept_client made.0 c)

  abbrev pub client_by :
      Result Str Url
      → Str
      → StorageImpl S Url Etcd Bridge G
      → Flow (StorageImpl S Url Etcd Bridge G × Option (ClientImpl S))
  client_by (fail e) text s =
      gives (refused_client (str "invalid transport server list URL: " ++ e) s)
  client_by (ok url) text s =
      if same (lib.scheme url) (str "embed")
      then embed_client text s
      else if same (lib.scheme url) (str "sqlite")
      then sqlite_client text s
      else gives (refused_client (str "unsupported transport scheme: " ++ lib.scheme url) s)

  abbrev pub client_once :
      Option (Option (ClientImpl S))
      → StorageImpl S Url Etcd Bridge G
      → Flow (StorageImpl S Url Etcd Bridge G × Option (ClientImpl S))
  client_once (some c) s = gives (s, c)
  client_once none s = transport_of s >>= λ cfg.
      head_of cfg.server_list >>= λ text. client_by (lib.parse_url text) text s

  -- Client.
  unfoldable pub client_of :
      StorageImpl S Url Etcd Bridge G
      → Flow (StorageImpl S Url Etcd Bridge G × Option (ClientImpl S))
  unfolding transport_of embedded_etcd sqlite_etcd cancel_storage
  client_of s = client_once s.client s

  -- newETCD3Client.
  unfoldable pub new_etcd3_client :
      TransportConfig
      → StorageImpl S Url Etcd Bridge G
      → Flow (StorageImpl S Url Etcd Bridge G × Result Str (ClientImpl S))
  unfolding client_of with_transport
  new_etcd3_client cfg s = client_of (with_transport cfg s) >>= λ r. gives (available r)
