-- ===== src/Storage/Hook/Sqlite.antt =====
-- What the factory is given when the database could not be set up.
use nanokube.Prelude.{
  ◌≡◌, refl, ap, ◌∙◌, true, false, Option, none, some, List, ◌∷◌, Str, str, same, or_else, ok, fail,
}
use nanokube.Storage.Flow.{Flow, gives, ◌>>=◌}
use nanokube.Storage.Client.{ClientImpl, new_client, with_bridge, fill}
use nanokube.Storage.Client.Served.{bridged_by}
use nanokube.Storage.State.{TransportConfig, Library, StorageImpl}
use nanokube.Storage.Backends.{first, cancel_storage, with_transport, sqlite_made}
use nanokube.Storage.Dispatch.{
  sqlite_once, sqlite_etcd, client_by, client_once, client_of, available, new_etcd3_client,
  trim_prefix, kept_client, sqlite_client,
}
use nanokube.Storage.Hook.Shared.{Addressed, addressed}

module _ {S Url Etcd Bridge Backend G : Type 0} (lib : Library S Url Etcd Bridge Backend) where
  client_of-sqlite :
      (s : StorageImpl S Url Etcd Bridge G) (text : Str) (url : Url)
      → Addressed lib s text url
      → s.client ≡ none
      → same (lib.scheme url) (str "embed") ≡ false
      → same (lib.scheme url) (str "sqlite") ≡ true
      → client_of lib s ≡ sqlite_client lib text s
  unfolding client_of
  client_of-sqlite s text url a fresh e q =
      ap (λ k. client_once lib k s) fresh
      ∙ addressed lib s text url (λ u x. client_by lib u x s) a
      ∙ rw (e, q)

  -- The state that a failure leaves.
  abbrev failed_sqlite : Str → StorageImpl S Url Etcd Bridge G → StorageImpl S Url Etcd Bridge G
  failed_sqlite e s = cancel_storage e (record s { sqlite_bridge = some none })

  -- A storage without a transport, a client and a bridge, whose factory's hook is called with the
  -- transport of a SQLite database; and the directory, the backend or its start fails with `e`. The
  -- hook reports no error: it answers a client, which is made with WithBridge of the nil bridge.
  -- The context is cancelled, with `e` unless it was before.
  pub new_etcd3_client-sqlite_failed :
      (cfg : TransportConfig) (s : StorageImpl S Url Etcd Bridge G) (text : Str) (others : List Str)
      (url : Url) (e : Str)
      → s.transport ≡ none
      → s.client ≡ none
      → s.sqlite_bridge ≡ none
      → cfg.server_list ≡ text ∷ others
      → lib.parse_url text ≡ ok url
      → same (lib.scheme url) (str "embed") ≡ false
      → same (lib.scheme url) (str "sqlite") ≡ true
      → sqlite_made lib (trim_prefix (str "sqlite://") text) ≡ fail e
      → (t : StorageImpl S Url Etcd Bridge G) × (c : ClientImpl S) × (new_etcd3_client lib cfg s
          ≡ gives (t, ok c))
        × (with_bridge (lib.bridge_server none) new_client ≡ gives c)
        × (t.cause ≡ or_else s.cause (some e))
  unfolding new_etcd3_client with_transport cancel_storage with_bridge fill sqlite_etcd
  new_etcd3_client-sqlite_failed cfg s text others url e fresh new unmade listed parsed not_embed
        is_sqlite failed =
      (
        (kept_client (failed_sqlite e s') c).0,
        c,
        ap (λ m. m >>= λ r. gives (available r))
            (client_of-sqlite s' text url at_first new not_embed is_sqlite
              ∙ ap (λ m. finish (sqlite_once m s.sqlite_bridge s')) failed
              ∙ ap (λ b. finish (sqlite_once (fail e) b s')) unmade),
        refl,
        refl,
      )
    where
      s' : StorageImpl S Url Etcd Bridge G
      s' = record s { transport = first s.transport cfg }

      at_first : Addressed lib s' text url
      at_first = record {
        cfg = cfg;
        others = others;
        transport = ap (λ o. first o cfg) fresh;
        listed = listed;
        parsed = parsed;
      }

      finish :
          StorageImpl S Url Etcd Bridge G × Option Bridge
          → Flow (StorageImpl S Url Etcd Bridge G × Option (ClientImpl S))
      finish made =
          with_bridge (lib.bridge_server made.1) new_client >>= λ k. gives (kept_client made.0 k)

      c : ClientImpl S
      c = bridged_by (lib.bridge_server none)
