-- ===== src/Storage/Hook.antt =====
-- What the API server's factory is given by its hook.
pub mod Shared
pub mod Sqlite
use nanokube.Prelude.{
  ℕ, zero, suc, ◌+◌, ◌-◌, ◌*◌, ◌/◌, ◌%◌, ◌^◌, ◌≤◌, ◌<◌, ◌≡◌, refl, sym, ap, ◌∙◌, subst, ◌≢◌, ◌↔◌,
  ◌⊎◌, inl, inr, Bool, true, false, ◌&&◌, ◌||◌, not, Option, none, some, List, [], ◌∷◌, ◌++◌, map,
  arith, ltb, leb, ◌==◌, if◌then◌else◌, ltb→lt, lt→ltb, leb→le, ==_iff, Bool-cases, Option-cases,
  length, take, drop, length-append, length-drop, length-take, take-append, drop-append,
  take-append-drop, All, All-append, All-split, Str, str, same, same_iff, same_refl, same_ne,
  member, append_left_cancel, has_prefix, has_prefix-append, Dict, lookup, insert, copy_into, IsMap,
  insert-IsMap, or_else, lookup-copy_into, lookup-insert, lookup-insert_self, lookup-insert_ne,
  value_of, Returns, Returns-some, Result, ok, fail, Result-cases,
}
use nanokube.Storage.Flow.{Flow, gives, waits, panics, ◌>>=◌, deref, await}
use nanokube.Storage.Client.{
  Server, ClientImpl, Servers, new_client, with_server, with_bridge, fill,
}
use nanokube.Storage.State.{Discovered, TransportConfig, Library, StorageImpl}
use nanokube.Storage.Backends.{
  is_some, first, cancel_storage, with_transport, discovered, transport_of, sqlite_made,
}
use nanokube.Storage.Dispatch.{
  client_urls, sqlite_once, sqlite_etcd, embedded_etcd, client_by, client_once, client_of,
  available, new_etcd3_client, trim_prefix, head_of, kept_client, refused_client, embed_client,
  sqlite_client,
}
use nanokube.Storage.Peers.{Handled, by_etcd, raft_by, raft_handler}
use nanokube.Storage.Once.{Continues, Leads}
use nanokube.Storage.Once.Changes.{with_transport-Continues}
use nanokube.Storage.Once.History.{client_of-Continues}

first-some {ℓ} : {A : Type ℓ} (o : Option A) (a : A) → (x : A) × (first o a ≡ some x)
first-some none a = (a, refl)
first-some (some old) a = (old, refl)

module _ {S Url Etcd Bridge G : Type 0} where
  -- What holds of a state and an answer, if a call comes to them.
  abbrev pub Ends :
      {A : Type 0}
      → (StorageImpl S Url Etcd Bridge G → A → Type 0)
      → Flow (StorageImpl S Url Etcd Bridge G × A)
      → Type 0
  Ends P (gives (t, a)) = P t a
  Ends P waits = Unit
  Ends P panics = Unit

  abbrev pub Holds : StorageImpl S Url Etcd Bridge G → Option (ClientImpl S) → Type 0
  Holds t c = t.client ≡ some c

  pub Ends-bind :
      {A B : Type 0} (P : StorageImpl S Url Etcd Bridge G → A → Type 0) (m : Flow B)
      (f : B → Flow (StorageImpl S Url Etcd Bridge G × A))
      → ((b : B) → Ends P (f b))
      → Ends P (m >>= f)
  Ends-bind P (gives b) f k = k b
  Ends-bind P waits f k = tt
  Ends-bind P panics f k = tt

  pub Ends-if :
      {A : Type 0} (P : StorageImpl S Url Etcd Bridge G → A → Type 0) (b : Bool)
      (m n : Flow (StorageImpl S Url Etcd Bridge G × A))
      → Ends P m
      → Ends P n
      → Ends P (if b then m else n)
  Ends-if P true m n p q = p
  Ends-if P false m n p q = q

  pub available-state :
      (t : StorageImpl S Url Etcd Bridge G) (c : Option (ClientImpl S)) → (available (t, c)).0 ≡ t
  available-state t none = refl
  available-state t (some c) = refl

  -- The answer of the hook, taken back to what the client was.
  pub answer_from :
      (P : StorageImpl S Url Etcd Bridge G → Option (ClientImpl S) → Type 0)
      (m : Flow (StorageImpl S Url Etcd Bridge G × Option (ClientImpl S)))
      (t : StorageImpl S Url Etcd Bridge G) (r : Result Str (ClientImpl S))
      → Ends P m
      → (m >>= λ q. gives (available q)) ≡ gives (t, r)
      → (c : Option (ClientImpl S)) × (available (t, c) ≡ (t, r)) × P t c
  answer_from P (gives (u, none)) t r p h =
      let same_state : u ≡ t = cc in (none, cc, subst (λ v. P v none) same_state p)
  answer_from P (gives (u, some c)) t r p h =
      let same_state : u ≡ t = cc in (some c, cc, subst (λ v. P v (some c)) same_state p)
  answer_from P waits t r p h = cc
  answer_from P panics t r p h = cc

module _ {S Url Etcd Bridge Backend G : Type 0} (lib : Library S Url Etcd Bridge Backend) where
  client_by-Holds :
      (u : Result Str Url) (text : Str) (s : StorageImpl S Url Etcd Bridge G)
      → Ends Holds (client_by lib u text s)
  unfolding cancel_storage
  client_by-Holds (fail e) text s = refl
  client_by-Holds (ok url) text s =
      Ends-if Holds (same (lib.scheme url) (str "embed")) _ _
        (Ends-bind Holds (embedded_etcd lib (trim_prefix (str "embed://") text) s) _ λ made.
          Ends-bind Holds (lib.v3rpc made.1) _
            λ servers. Ends-bind Holds (with_server servers new_client) _ λ c. refl)
        (Ends-if Holds (same (lib.scheme url) (str "sqlite")) _ _
          (Ends-bind Holds
            (with_bridge
              (lib.bridge_server (sqlite_etcd lib (trim_prefix (str "sqlite://") text) s).1)
              new_client)
            _ λ c. refl)
          refl)

  client_once-Holds :
      (k : Option (Option (ClientImpl S))) (s : StorageImpl S Url Etcd Bridge G)
      → s.client ≡ k
      → Ends Holds (client_once lib k s)
  client_once-Holds (some c) s h = h
  client_once-Holds none s h = Ends-bind Holds (transport_of s) _ λ cfg.
      Ends-bind Holds (head_of cfg.server_list) _
        λ text. client_by-Holds (lib.parse_url text) text s

  -- A storage with a transport and a client, or none, that was made.
  asked_again :
      (cfg x : TransportConfig) (t : StorageImpl S Url Etcd Bridge G) (c : Option (ClientImpl S))
      → t.transport ≡ some x
      → t.client ≡ some c
      → new_etcd3_client lib cfg t ≡ gives (available (t, c))
  unfolding new_etcd3_client with_transport client_of
  asked_again cfg x t c had made =
      ap (λ tr. client_once lib t.client (record t { transport = tr }) >>= λ r. gives (available r))
        (ap (λ o. first o cfg) had ∙ sym had)
      ∙ ap (λ k. client_once lib k t >>= λ r. gives (available r)) made

  abbrev Settled : StorageImpl S Url Etcd Bridge G → Option (ClientImpl S) → Type 0
  Settled t c = (x : TransportConfig) × (t.transport ≡ some x) × (t.client ≡ some c)

  Settled-of :
      (s : StorageImpl S Url Etcd Bridge G) (x : TransportConfig)
      (m : Flow (StorageImpl S Url Etcd Bridge G × Option (ClientImpl S)))
      → s.transport ≡ some x
      → Leads Continues s m
      → Ends Holds m
      → Ends Settled m
  Settled-of s x (gives (t, c)) h p q = (x, p.transport x h, q)
  Settled-of s x waits h p q = tt
  Settled-of s x panics h p q = tt

  client_of-Settled :
      (cfg : TransportConfig) (s : StorageImpl S Url Etcd Bridge G)
      → Ends Settled (client_of lib (with_transport cfg s))
  unfolding client_of with_transport
  client_of-Settled cfg s =
      let (x, h) = first-some s.transport cfg in
      Settled-of (with_transport cfg s) x _ h (client_of-Continues lib (with_transport cfg s))
        (client_once-Holds s.client (with_transport cfg s) refl)

  -- Once the factory's hook has come to an answer, a client or an error, every later call of it
  -- comes to the same answer and leaves the storage as it is, whatever transport it asks for.
  pub new_etcd3_client-again :
      (cfg other : TransportConfig) (s t : StorageImpl S Url Etcd Bridge G)
      (r : Result Str (ClientImpl S))
      → new_etcd3_client lib cfg s ≡ gives (t, r)
      → new_etcd3_client lib other t ≡ gives (t, r)
  unfolding new_etcd3_client
  new_etcd3_client-again cfg other s t r h =
      let (c, e, p) =
        answer_from Settled (client_of lib (with_transport cfg s)) t r (client_of-Settled cfg s)
          h in
      asked_again other p.0 t c p.1 p.2 ∙ ap gives e
