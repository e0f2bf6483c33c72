-- ===== src/Storage/Once.antt =====
-- What the operations of the storage leave as it is, in any order of calls.
pub mod Changes
pub mod Runs
pub mod History
use nanokube.Prelude.{
  ℕ, zero, suc, ◌+◌, ◌-◌, ◌*◌, ◌/◌, ◌%◌, ◌^◌, ◌≤◌, ◌<◌, ◌≡◌, refl, sym, ap, ◌∙◌, subst, ◌≢◌, ◌↔◌,
  ◌⊎◌, inl, inr, Bool, true, false, ◌&&◌, ◌||◌, not, Option, none, some, List, [], ◌∷◌, ◌++◌, map,
  arith, ltb, leb, ◌==◌, if◌then◌else◌, ltb→lt, lt→ltb, leb→le, ==_iff, Bool-cases, Option-cases,
  length, take, drop, length-append, length-drop, length-take, take-append, drop-append,
  take-append-drop, All, All-append, All-split, Str, str, same, same_iff, same_refl, same_ne,
  member, append_left_cancel, has_prefix, has_prefix-append, Dict, lookup, insert, copy_into, IsMap,
  insert-IsMap, or_else, lookup-copy_into, lookup-insert, lookup-insert_self, lookup-insert_ne,
  value_of, Returns, Returns-some, Result, ok, fail, Result-cases,
}
use nanokube.Storage.Flow.{Flow, gives, waits, panics, ◌>>=◌, deref, await}
use nanokube.Storage.Client.{ClientImpl, Servers, new_client, with_server, with_bridge}
use nanokube.Storage.State.{Discovered, TransportConfig, Library, StorageImpl}
use nanokube.Storage.Backends.{
  is_some, first, new_storage, cancel_storage, with_discovery, with_transport, discovered,
  transport_of, port_once, storage_port, endpoints, parse_all, sqlite_made, etcd_config, etcd_made,
}
use nanokube.Storage.Dispatch.{
  client_urls, sqlite_once, sqlite_etcd, etcd_started, embedded_once, embedded_etcd, client_by,
  client_once, client_of, available, new_etcd3_client, trim_prefix, head_of,
}
use nanokube.Storage.Peers.{
  on_etcd, raft_by, raft_handler, mux_by, with_mux, with_server_config, server_config_once,
}

-- The operations that change the storage. To ask for a client is to call the factory's hook.
pub data Op (Url G : Type 0) : Type 0 where
  provides_discovery : Discovered Url → Op Url G
  provides_transport : TransportConfig → Op Url G
  provides_config : G → Op Url G
  asks_client : TransportConfig → Op Url G
  asks_raft : Op Url G
  asks_mux : Op Url G
  asks_port : Op Url G
  cancels : Str → Op Url G

abbrev pub Keeps {ℓ} : {A : Type ℓ} → Option A → Option A → Type ℓ
Keeps o o' = (a : _) → o ≡ some a → o' ≡ some a

pub same_kept {ℓ} : {A : Type ℓ} (o : Option A) → Keeps o o
same_kept o a h = h

pub Keeps-first {ℓ} : {A : Type ℓ} (o : Option A) (a : A) → Keeps o (first o a)
Keeps-first none a b h = cc
Keeps-first (some old) a b h = h

pub Keeps-or_else {ℓ} : {A : Type ℓ} (o : Option A) (a : A) → Keeps o (or_else o (some a))
Keeps-or_else none a b h = cc
Keeps-or_else (some old) a b h = h

-- What was not made before.
pub Keeps-new {ℓ} : {A : Type ℓ} (o o' : Option A) → o ≡ none → Keeps o o'
Keeps-new o o' e a h = cc

abbrev pub servers_in {ℓ} : {A : Type ℓ} → Option (Option A) → List A
servers_in none = []
servers_in (some none) = []
servers_in (some (some srv)) = srv ∷ []

module _ {S Url Etcd Bridge G : Type 0} where
  -- What was provided, made or refused once stays, and so does the cause of the cancellation;
  -- and if the servers that were started are the one that is embedded, they are so again.
  pub record Continues (s t : StorageImpl S Url Etcd Bridge G) : Type 0 where
    pub cause : Keeps s.cause t.cause
    pub client : Keeps s.client t.client
    pub embedded : Keeps s.embedded t.embedded
    pub sqlite_bridge : Keeps s.sqlite_bridge t.sqlite_bridge
    pub discovery : Keeps s.discovery t.discovery
    pub transport : Keeps s.transport t.transport
    pub rest : Keeps s.rest t.rest
    pub port : Keeps s.port t.port
    pub sound : s.started ≡ servers_in s.embedded → t.started ≡ servers_in t.embedded

  pub Continues-refl : (s : StorageImpl S Url Etcd Bridge G) → Continues s s
  Continues-refl s = record {
    cause = same_kept _;
    client = same_kept _;
    embedded = same_kept _;
    sqlite_bridge = same_kept _;
    discovery = same_kept _;
    transport = same_kept _;
    rest = same_kept _;
    port = same_kept _;
    sound = λ h. h;
  }

  pub Continues-trans :
      (s t u : StorageImpl S Url Etcd Bridge G) → Continues s t → Continues t u → Continues s u
  Continues-trans s t u p q = record {
    cause = λ a h. q.cause a (p.cause a h);
    client = λ a h. q.client a (p.client a h);
    embedded = λ a h. q.embedded a (p.embedded a h);
    sqlite_bridge = λ a h. q.sqlite_bridge a (p.sqlite_bridge a h);
    discovery = λ a h. q.discovery a (p.discovery a h);
    transport = λ a h. q.transport a (p.transport a h);
    rest = λ a h. q.rest a (p.rest a h);
    port = λ a h. q.port a (p.port a h);
    sound = λ h. q.sound (p.sound h);
  }

  -- Two of the changes: the context is cancelled, and one of the fields is made.
  pub changed :
      (s t : StorageImpl S Url Etcd Bridge G)
      → Keeps s.cause t.cause
      → Keeps s.client t.client
      → Keeps s.discovery t.discovery
      → Keeps s.transport t.transport
      → Keeps s.rest t.rest
      → Keeps s.port t.port
      → Keeps s.sqlite_bridge t.sqlite_bridge
      → Keeps s.embedded t.embedded
      → (s.started ≡ servers_in s.embedded → t.started ≡ servers_in t.embedded)
      → Continues s t
  changed s t ca cl di tr re po sq em so = record {
    cause = ca;
    client = cl;
    embedded = em;
    sqlite_bridge = sq;
    discovery = di;
    transport = tr;
    rest = re;
    port = po;
    sound = so;
  }

  -- A result whose state stands in a relation to the state before.
  abbrev pub Leads {ℓ} :
      {A : Type 0}
      → (StorageImpl S Url Etcd Bridge G → StorageImpl S Url Etcd Bridge G → Type ℓ)
      → StorageImpl S Url Etcd Bridge G
      → Flow (StorageImpl S Url Etcd Bridge G × A)
      → Type ℓ
  Leads R s (gives (t, a)) = R s t
  Leads R s waits = Unit
  Leads R s panics = Unit

  pub Leads->>= :
      {A B : Type 0}
      (R Q : StorageImpl S Url Etcd Bridge G → StorageImpl S Url Etcd Bridge G → Type 0)
      (s : StorageImpl S Url Etcd Bridge G) (m : Flow (StorageImpl S Url Etcd Bridge G × A))
      (f : StorageImpl S Url Etcd Bridge G × A → Flow (StorageImpl S Url Etcd Bridge G × B))
      → Leads R s m
      → ((t : StorageImpl S Url Etcd Bridge G) (a : A) → R s t → Leads Q s (f (t, a)))
      → Leads Q s (m >>= f)
  Leads->>= R Q s (gives (t, a)) f h k = k t a h
  Leads->>= R Q s waits f h k = tt
  Leads->>= R Q s panics f h k = tt

  -- What reads alone comes before.
  pub Leads-read :
      {A B : Type 0}
      (R : StorageImpl S Url Etcd Bridge G → StorageImpl S Url Etcd Bridge G → Type 0)
      (s : StorageImpl S Url Etcd Bridge G) (m : Flow A)
      (f : A → Flow (StorageImpl S Url Etcd Bridge G × B))
      → ((a : A) → Leads R s (f a))
      → Leads R s (m >>= f)
  Leads-read R s (gives a) f k = k a
  Leads-read R s waits f k = tt
  Leads-read R s panics f k = tt

  pub Leads-if :
      {A : Type 0} (R : StorageImpl S Url Etcd Bridge G → StorageImpl S Url Etcd Bridge G → Type 0)
      (s : StorageImpl S Url Etcd Bridge G) (b : Bool)
      (m n : Flow (StorageImpl S Url Etcd Bridge G × A))
      → Leads R s m
      → Leads R s n
      → Leads R s (if b then m else n)
  Leads-if R s true m n p q = p
  Leads-if R s false m n p q = q

  -- An operation that leaves the client alone, and one that leaves the embedded server alone too.
  pub record Beside (s t : StorageImpl S Url Etcd Bridge G) : Type 0 where
    pub continues : Continues s t
    pub same_client : t.client ≡ s.client

  pub record Ported (s t : StorageImpl S Url Etcd Bridge G) : Type 0 where
    pub beside : Beside s t
    pub same_embedded : t.embedded ≡ s.embedded
