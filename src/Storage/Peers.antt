-- ===== src/Storage/Peers.antt =====
-- The handlers of pkg/storage/storage.go for etcd's peers, and its REST options. A handler of etcd
-- is its server; to take one of a nil server panics.
use nanokube.Prelude.{
  ℕ, Option, none, some, List, [], ◌∷◌, ◌++◌, if◌then◌else◌, Str, str, same, Result, ok, fail,
}
use nanokube.Storage.Flow.{Flow, gives, ◌>>=◌, deref, await}
use nanokube.Storage.State.{TransportConfig, Library, StorageImpl}
use nanokube.Storage.Backends.{is_some, cancel_storage, with_transport, transport_of}
use nanokube.Storage.Dispatch.{trim_prefix, head_of, embedded_etcd}

-- What a handler does with a request: an error of its own, or etcd's handler has it.
pub data Handled (Etcd : Type 0) : Type 0 where
  http_error : ℕ → Str → Handled Etcd
  by_etcd : Etcd → Handled Etcd

-- The paths of the mux, with the server whose handler is behind each.
abbrev pub handled_by : {Etcd : Type 0} → Etcd → List (Str × Etcd)
handled_by srv = (str "/raft", srv) ∷ (str "/raft/", srv) ∷ (str "/members", srv) ∷ []

abbrev pub raft_paths : List Str
raft_paths = str "/raft" ∷ str "/raft/" ∷ str "/members" ∷ []

module _ {S Url Etcd Bridge Backend G : Type 0} (lib : Library S Url Etcd Bridge Backend) where
  -- The embedded server of a transport, and what is done with it.
  abbrev pub on_etcd :
      {A : Type 0}
      → Str
      → (StorageImpl S Url Etcd Bridge G → Etcd → A)
      → StorageImpl S Url Etcd Bridge G
      → Flow A
  on_etcd text k s = embedded_etcd lib (trim_prefix (str "embed://") text) s >>= λ made.
      deref made.1 >>= λ srv. gives (k made.0 srv)

  abbrev pub raft_by :
      Result Str Url
      → Str
      → StorageImpl S Url Etcd Bridge G
      → Flow (StorageImpl S Url Etcd Bridge G × Handled Etcd)
  raft_by (fail e) text s =
      gives (s, http_error 500 (str "invalid transport server list URL: " ++ e))
  raft_by (ok url) text s =
      if same (lib.scheme url) (str "embed")
      then on_etcd text (λ s' srv. (s', by_etcd srv)) s
      else gives (s, http_error 501 (str "raft handler not configured for " ++ lib.scheme url))

  -- RaftHandler, on a request.
  unfoldable pub raft_handler :
      StorageImpl S Url Etcd Bridge G → Flow (StorageImpl S Url Etcd Bridge G × Handled Etcd)
  unfolding transport_of embedded_etcd
  raft_handler s = transport_of s >>= λ cfg.
      head_of cfg.server_list >>= λ text. raft_by (lib.parse_url text) text s

  abbrev pub mux_by :
      Result Str Url
      → Str
      → List (Str × Etcd)
      → StorageImpl S Url Etcd Bridge G
      → Flow (StorageImpl S Url Etcd Bridge G × List (Str × Etcd))
  mux_by (fail e) text mux s =
      gives (cancel_storage (str "invalid transport server list URL: " ++ e) s, mux)
  mux_by (ok url) text mux s =
      if same (lib.scheme url) (str "embed")
      then on_etcd text
          (λ s' srv. (record s' { paths = s'.paths ++ raft_paths }, mux ++ handled_by srv)) s
      else gives (s, mux)

  -- WithMux.
  unfoldable pub with_mux :
      List (Str × Etcd)
      → StorageImpl S Url Etcd Bridge G
      → Flow (StorageImpl S Url Etcd Bridge G × List (Str × Etcd))
  unfolding transport_of embedded_etcd cancel_storage
  with_mux mux s = transport_of s >>= λ cfg.
      head_of cfg.server_list >>= λ text. mux_by (lib.parse_url text) text mux s

-- `server.Config`, whose getter of REST options is its own or the storage.
pub data Getter (G : Type 0) : Type 0 where
  of_config : G → Getter G
  of_storage : Getter G

-- What a decorator does: it may change the storage `T`, as the factory's hook does, and makes an
-- interface `I` or fails.
abbrev pub Decorating : Type 0 → Type 0 → Type 0
Decorating T I = TransportConfig → Str → T → Flow (T × Result Str I)

-- `generic.RESTOptions`, by its decorator `D`.
pub record RestOptions (D : Type 0) : Type 0 where
  pub decorator : D
  pub resource_prefix : Str

module _ {S Url Etcd Bridge G : Type 0} where
  -- WithServerConfig; the config's own getter is kept once.
  abbrev pub server_config_once :
      Option G → G → StorageImpl S Url Etcd Bridge G → StorageImpl S Url Etcd Bridge G × Getter G
  server_config_once none own s = (record s { rest = some own }, of_storage)
  server_config_once (some kept_client) own s = (s, of_config own)

  unfoldable pub with_server_config :
      G → StorageImpl S Url Etcd Bridge G → StorageImpl S Url Etcd Bridge G × Getter G
  with_server_config own s = server_config_once s.rest own s

module _ {S Url Etcd Bridge G : Type 0} (I : Type 0) where
  -- StorageDecorator.
  unfoldable pub storage_decorator :
      Decorating (StorageImpl S Url Etcd Bridge G) I
      → Decorating (StorageImpl S Url Etcd Bridge G) I
  unfolding with_transport
  storage_decorator inner transport prefix s = inner transport prefix (with_transport transport s)

  abbrev pub decorated :
      Result Str (RestOptions (Decorating (StorageImpl S Url Etcd Bridge G) I))
      → Result Str (RestOptions (Decorating (StorageImpl S Url Etcd Bridge G) I))
  decorated (fail e) = fail e
  decorated (ok opts) = ok (record opts { decorator = storage_decorator opts.decorator })

  -- GetRESTOptions.
  unfoldable pub get_rest_options :
      (G → Str → Result Str (RestOptions (Decorating (StorageImpl S Url Etcd Bridge G) I)))
      → Str
      → StorageImpl S Url Etcd Bridge G
      → Flow (Result Str (RestOptions (Decorating (StorageImpl S Url Etcd Bridge G) I)))
  unfolding storage_decorator
  get_rest_options ask resource s =
      await (is_some s.rest) (is_some s.cause) (deref s.rest) >>= λ own.
      gives (decorated (ask own resource))
