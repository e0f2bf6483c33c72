-- ===== src/Storage/Once/History.antt =====
-- What stays over any calls of the storage's operations.
use nanokube.Prelude.{
  ◌≡◌, refl, ◌∙◌, Bool, true, false, Option, none, some, List, ◌++◌, Str, str, same, Result, ok,
  fail,
}
use nanokube.Storage.Flow.{Flow, deref, await}
use nanokube.Storage.Client.{ClientImpl, new_client, with_server, with_bridge}
use nanokube.Storage.State.{Library, StorageImpl}
use nanokube.Storage.Backends.{
  is_some, cancel_storage, discovered, transport_of, storage_port, endpoints, parse_all,
  sqlite_made,
}
use nanokube.Storage.Dispatch.{
  client_urls, sqlite_once, sqlite_etcd, etcd_started, embedded_once, embedded_etcd, client_by,
  client_once, client_of, trim_prefix, head_of, embed_client, sqlite_client,
}
use nanokube.Storage.Peers.{on_etcd, raft_by, raft_handler, mux_by, with_mux}
use nanokube.Storage.Once.{
  same_kept, Continues, Continues-refl, Continues-trans, changed, Leads, Leads->>=, Leads-read,
  Leads-if, Beside, Ported,
}
use nanokube.Storage.Once.Changes.{
  cancel_storage-Continues, Beside-refl, port_once-Ported, sqlite_once-Beside,
  kept_client-Continues, refused_client-Continues, started-Beside, failed-Beside,
}

module _ {S Url Etcd Bridge Backend G : Type 0} (lib : Library S Url Etcd Bridge Backend)
    (s : StorageImpl S Url Etcd Bridge G) where
  client_urls-Ported : Leads Ported s (client_urls lib s)
  unfolding client_urls storage_port
  client_urls-Ported =
      Leads-read Ported s (parse_all lib (endpoints (storage_port lib s).1)) _
        (λ urls. port_once-Ported s lib.listen s.port refl)

  Ported-trans : (t u : StorageImpl S Url Etcd Bridge G) → Ported s t → Ported t u → Ported s u
  Ported-trans t u p q = record {
    beside = record {
      continues = Continues-trans s t u p.beside.continues q.beside.continues;
      same_client = q.beside.same_client ∙ p.beside.same_client;
    };
    same_embedded = q.same_embedded ∙ p.same_embedded;
  }

  await-Leads :
      {A : Type 0} (R : StorageImpl S Url Etcd Bridge G → StorageImpl S Url Etcd Bridge G → Type 0)
      (closed ended : Bool) (m : Flow (StorageImpl S Url Etcd Bridge G × A))
      → Leads R s m
      → Leads R s (await closed ended m)
  await-Leads R true ended m h = h
  await-Leads R false true m h = h
  await-Leads R false false m h = tt

  etcd_started-Beside :
      (t : StorageImpl S Url Etcd Bridge G) (made : Result Str Etcd)
      → Ported s t
      → s.embedded ≡ none
      → Leads Beside s (etcd_started lib made t)
  unfolding cancel_storage
  etcd_started-Beside t (ok srv) p e =
      await-Leads Beside (lib.ready srv) (is_some t.cause) _ (started-Beside s t srv p e)
  etcd_started-Beside t (fail l) p e = failed-Beside s t l p e

module _ {S Url Etcd Bridge Backend G : Type 0} (lib : Library S Url Etcd Bridge Backend)
    (s : StorageImpl S Url Etcd Bridge G) where
  embedded_etcd-Beside : (dir : Str) → Leads Beside s (embedded_etcd lib dir s)
  unfolding embedded_etcd client_urls storage_port
  embedded_etcd-Beside dir = by_once s.embedded refl
    where
      again :
          (t : StorageImpl S Url Etcd Bridge G)
          → Ported s t
          → Leads (λ _ u. Ported s u) s (client_urls lib t)
      again t p =
          Leads-read (λ _ u. Ported s u) s (parse_all lib (endpoints (storage_port lib t).1)) _
            (λ urls. Ported-trans lib s t _ p (port_once-Ported t lib.listen t.port refl))

      by_once :
          (e : Option (Option Etcd)) → s.embedded ≡ e → Leads Beside s (embedded_once lib dir e s)
      by_once (some embedded) h = Beside-refl s
      by_once none h = Leads-read Beside s (discovered s) _ λ d.
          Leads->>= Ported Beside s (client_urls lib s) _ (client_urls-Ported lib s) λ t one p.
            Leads->>= (λ _ u. Ported s u) Beside s (client_urls lib t) _ (again t p)
              λ u two q. etcd_started-Beside lib s u _ q h

  after : (t u : StorageImpl S Url Etcd Bridge G) → Beside s t → Continues t u → Continues s u
  after t u p q = Continues-trans s t u p.continues q

  embed_client-Continues :
      (text : Str) → s.client ≡ none → Leads Continues s (embed_client lib text s)
  embed_client-Continues text h =
      Leads->>= Beside Continues s (embedded_etcd lib (trim_prefix (str "embed://") text) s) _
        (embedded_etcd-Beside (trim_prefix (str "embed://") text))
        λ t srv p. Leads-read Continues s (lib.v3rpc srv) _ λ servers.
          Leads-read Continues s (with_server servers new_client) _
            λ c. after t _ p (kept_client-Continues t c (p.same_client ∙ h))

  sqlite_client-Continues :
      (text : Str) → s.client ≡ none → Leads Continues s (sqlite_client lib text s)
  unfolding sqlite_etcd
  sqlite_client-Continues text h =
      let dir = trim_prefix (str "sqlite://") text in
      let made = sqlite_once (sqlite_made lib dir) s.sqlite_bridge s in
      let p : Beside s made.0 = sqlite_once-Beside s (sqlite_made lib dir) s.sqlite_bridge refl in
      Leads-read Continues s (with_bridge (lib.bridge_server made.1) new_client) _
        λ c. after made.0 _ p (kept_client-Continues made.0 c (p.same_client ∙ h))

  client_by-Continues :
      (u : Result Str Url) (text : Str)
      → s.client ≡ none
      → Leads Continues s (client_by lib u text s)
  client_by-Continues (fail e) text h =
      refused_client-Continues s (str "invalid transport server list URL: " ++ e) h
  client_by-Continues (ok url) text h =
      Leads-if Continues s (same (lib.scheme url) (str "embed")) _ _ (embed_client-Continues text h)
        (Leads-if Continues s (same (lib.scheme url) (str "sqlite")) _ _
          (sqlite_client-Continues text h)
          (refused_client-Continues s (str "unsupported transport scheme: " ++ lib.scheme url) h))

  pub client_of-Continues : Leads Continues s (client_of lib s)
  unfolding client_of
  client_of-Continues = by_once s.client refl
    where
      by_once :
          (c : Option (Option (ClientImpl S)))
          → s.client ≡ c
          → Leads Continues s (client_once lib c s)
      by_once (some c) h = Continues-refl s
      by_once none h = Leads-read Continues s (transport_of s) _ λ cfg.
          Leads-read Continues s (head_of cfg.server_list) _
            λ text. client_by-Continues (lib.parse_url text) text h

  on_etcd-Continues :
      {A : Type 0} (text : Str)
      (k : StorageImpl S Url Etcd Bridge G → Etcd → StorageImpl S Url Etcd Bridge G × A)
      → ((t : StorageImpl S Url Etcd Bridge G) (srv : Etcd) → Continues t (k t srv).0)
      → Leads Continues s (on_etcd lib text k s)
  on_etcd-Continues text k h =
      Leads->>= Beside Continues s (embedded_etcd lib (trim_prefix (str "embed://") text) s) _
        (embedded_etcd-Beside (trim_prefix (str "embed://") text))
        λ t made p. Leads-read Continues s (deref made) _ λ srv. after t _ p (h t srv)

  raft_by-Continues : (u : Result Str Url) (text : Str) → Leads Continues s (raft_by lib u text s)
  raft_by-Continues (fail e) text = Continues-refl s
  raft_by-Continues (ok url) text =
      Leads-if Continues s (same (lib.scheme url) (str "embed")) _ _
        (on_etcd-Continues text _ (λ t srv. Continues-refl t)) (Continues-refl s)

  pub raft_handler-Continues : Leads Continues s (raft_handler lib s)
  unfolding raft_handler
  raft_handler-Continues = Leads-read Continues s (transport_of s) _ λ cfg.
      Leads-read Continues s (head_of cfg.server_list) _
        λ text. raft_by-Continues (lib.parse_url text) text

  mux_by-Continues :
      (u : Result Str Url) (text : Str) (mux : List (Str × Etcd))
      → Leads Continues s (mux_by lib u text mux s)
  mux_by-Continues (fail e) text mux =
      cancel_storage-Continues s (str "invalid transport server list URL: " ++ e)
  mux_by-Continues (ok url) text mux =
      Leads-if Continues s (same (lib.scheme url) (str "embed")) _ _
        (on_etcd-Continues text _ (λ t srv.
          changed t _ (same_kept _) (same_kept _) (same_kept _) (same_kept _) (same_kept _)
            (same_kept _) (same_kept _) (same_kept _) (λ h. h)))
        (Continues-refl s)

  pub with_mux-Continues : (mux : List (Str × Etcd)) → Leads Continues s (with_mux lib mux s)
  unfolding with_mux
  with_mux-Continues mux = Leads-read Continues s (transport_of s) _ λ cfg.
      Leads-read Continues s (head_of cfg.server_list) _
        λ text. mux_by-Continues (lib.parse_url text) text mux
