-- ===== src/Storage/Once/Runs.antt =====
-- Calls of the storage in any order, and what stays over all of them.
use nanokube.Prelude.{◌≡◌, refl, subst, Option, none, some, List, [], ◌∷◌}
use nanokube.Storage.Flow.{Flow, gives, waits, panics, ◌>>=◌}
use nanokube.Storage.Client.{ClientImpl}
use nanokube.Storage.State.{TransportConfig, Library, StorageImpl}
use nanokube.Storage.Backends.{
  new_storage, cancel_storage, with_discovery, with_transport, storage_port,
}
use nanokube.Storage.Dispatch.{client_of, available, new_etcd3_client}
use nanokube.Storage.Peers.{raft_handler, with_mux, with_server_config}
use nanokube.Storage.Once.{
  Op, provides_discovery, provides_transport, provides_config, asks_client, asks_raft, asks_mux,
  asks_port, cancels, servers_in, Continues, Continues-refl, Continues-trans, Leads, Leads->>=,
}
use nanokube.Storage.Once.Changes.{
  with_discovery-Continues, with_transport-Continues, cancel_storage-Continues,
  with_server_config-Continues, port_once-Ported,
}
use nanokube.Storage.Once.History.{client_of-Continues, raft_handler-Continues, with_mux-Continues}

module _ {S Url Etcd Bridge Backend G : Type 0} (lib : Library S Url Etcd Bridge Backend) where
  abbrev pub state_of :
      {A : Type 0}
      → StorageImpl S Url Etcd Bridge G × A
      → Flow (StorageImpl S Url Etcd Bridge G × Unit {0})
  state_of r = gives (r.0, tt)

  -- One call, with what it answers left out.
  unfoldable pub call_storage :
      Op Url G → StorageImpl S Url Etcd Bridge G → Flow (StorageImpl S Url Etcd Bridge G × Unit {0})
  unfolding with_discovery with_transport with_server_config new_etcd3_client raft_handler with_mux
      storage_port cancel_storage
  call_storage (provides_discovery d) s = gives (with_discovery d s, tt)
  call_storage (provides_transport cfg) s = gives (with_transport cfg s, tt)
  call_storage (provides_config own) s = state_of (with_server_config own s)
  call_storage (asks_client cfg) s = new_etcd3_client lib cfg s >>= state_of
  call_storage asks_raft s = raft_handler lib s >>= state_of
  call_storage asks_mux s = with_mux lib [] s >>= state_of
  call_storage asks_port s = state_of (storage_port lib s)
  call_storage (cancels e) s = gives (cancel_storage e s, tt)

  unfoldable pub run_storage :
      List (Op Url G)
      → StorageImpl S Url Etcd Bridge G
      → Flow (StorageImpl S Url Etcd Bridge G × Unit {0})
  unfolding call_storage
  run_storage [] s = gives (s, tt)
  run_storage (op ∷ ops) s = call_storage op s >>= λ r. run_storage ops r.0

  Leads-after :
      {A : Type 0} (s t : StorageImpl S Url Etcd Bridge G)
      (m : Flow (StorageImpl S Url Etcd Bridge G × A))
      → Continues s t
      → Leads Continues t m
      → Leads Continues s m
  Leads-after s t (gives (u, a)) p q = Continues-trans s t u p q
  Leads-after s t waits p q = tt
  Leads-after s t panics p q = tt

  new_etcd3_client-Continues :
      (cfg : TransportConfig) (s : StorageImpl S Url Etcd Bridge G)
      → Leads Continues s (new_etcd3_client lib cfg s)
  unfolding new_etcd3_client
  new_etcd3_client-Continues cfg s =
      Leads->>= Continues Continues s (client_of lib (with_transport cfg s)) _
        (Leads-after s (with_transport cfg s) _ (with_transport-Continues s cfg)
          (client_of-Continues lib (with_transport cfg s)))
        answered
    where
      answered :
          (t : StorageImpl S Url Etcd Bridge G) (c : Option (ClientImpl S))
          → Continues s t
          → Leads Continues s (gives (available (t, c)))
      answered t none p = p
      answered t (some c) p = p

  state_of-Continues :
      {A : Type 0} (s : StorageImpl S Url Etcd Bridge G)
      (m : Flow (StorageImpl S Url Etcd Bridge G × A))
      → Leads Continues s m
      → Leads Continues s (m >>= state_of)
  state_of-Continues s m h = Leads->>= Continues Continues s m _ h (λ t a p. p)

  call_storage-Continues :
      (op : Op Url G) (s : StorageImpl S Url Etcd Bridge G) → Leads Continues s (call_storage op s)
  unfolding call_storage storage_port
  call_storage-Continues (provides_discovery d) s = with_discovery-Continues s d
  call_storage-Continues (provides_transport cfg) s = with_transport-Continues s cfg
  call_storage-Continues (provides_config own) s = with_server_config-Continues s own
  call_storage-Continues (asks_client cfg) s =
      state_of-Continues s _ (new_etcd3_client-Continues cfg s)
  call_storage-Continues asks_raft s = state_of-Continues s _ (raft_handler-Continues lib s)
  call_storage-Continues asks_mux s = state_of-Continues s _ (with_mux-Continues lib s [])
  call_storage-Continues asks_port s = (port_once-Ported s lib.listen s.port refl).beside.continues
  call_storage-Continues (cancels e) s = cancel_storage-Continues s e

  run_storage-Leads :
      (ops : List (Op Url G)) (s : StorageImpl S Url Etcd Bridge G)
      → Leads Continues s (run_storage ops s)
  unfolding run_storage
  run_storage-Leads [] s = Continues-refl s
  run_storage-Leads (op ∷ ops) s =
      Leads->>= Continues Continues s (call_storage op s) _ (call_storage-Continues op s)
        λ t u p. Leads-after s t (run_storage ops t) p (run_storage-Leads ops t)

  -- Over any calls of the storage's operations, in any order, that neither wait for ever nor panic:
  -- what was provided, made or refused once stays what it is, the client, the two backends, the
  -- discovery, the transport, the getter of REST options and the port; so does the first cause of
  -- a cancellation; and if no etcd server had been started but the one that is embedded, that is
  -- so again.
  pub run_storage-Continues :
      (ops : List (Op Url G)) (s t : StorageImpl S Url Etcd Bridge G)
      → run_storage ops s ≡ gives (t, tt)
      → Continues s t
  run_storage-Continues ops s t h = subst (Leads Continues s) h (run_storage-Leads ops s)

  -- Over any such calls, a new storage has started the etcd server that is embedded, once, and no
  -- other; if none is embedded, it has started none.
  pub run_storage-new_storage :
      (ops : List (Op Url G)) (t : StorageImpl S Url Etcd Bridge G)
      → run_storage ops new_storage ≡ gives (t, tt)
      → t.started ≡ servers_in t.embedded
  run_storage-new_storage ops t h = (run_storage-Continues ops new_storage t h).sound refl
