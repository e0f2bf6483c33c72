-- ===== src/Storage/Hook/Shared.antt =====
-- The server behind the factory's client, and behind the handlers for etcd's peers.
use nanokube.Prelude.{
  ◌≡◌, refl, sym, ap, ◌∙◌, subst, Bool, true, false, Option, none, some, List, ◌∷◌, Str, str, same,
  Result, ok, fail,
}
use nanokube.Storage.Flow.{Flow, gives, waits, panics, ◌>>=◌, deref, await}
use nanokube.Storage.Client.{ClientImpl, Servers, new_client, with_server}
use nanokube.Storage.State.{TransportConfig, Library, StorageImpl}
use nanokube.Storage.Backends.{
  config_or_zero, is_some, first, cancel_storage, with_transport, discovered, transport_of,
  etcd_made, etcd_config,
}
use nanokube.Storage.Dispatch.{
  client_urls, etcd_started, embedded_once, embedded_etcd, client_by, client_once, client_of,
  available, new_etcd3_client, trim_prefix, head_of, embed_client,
}
use nanokube.Storage.Peers.{by_etcd, raft_by, raft_handler}
use nanokube.Storage.Hook.{Ends, Ends-bind, answer_from}
use nanokube.Storage.Client.Served.{RpcCall, call_all, served, behind, call_all-with_server}
use nanokube.Storage.Once.{Continues, Leads}
use nanokube.Storage.Once.History.{client_of-Continues}

module _ {S Url Etcd Bridge G : Type 0} where
  Ends->>= :
      {A B : Type 0} (Q : StorageImpl S Url Etcd Bridge G → B → Type 0)
      (P : StorageImpl S Url Etcd Bridge G → A → Type 0)
      (m : Flow (StorageImpl S Url Etcd Bridge G × B))
      (f : StorageImpl S Url Etcd Bridge G × B → Flow (StorageImpl S Url Etcd Bridge G × A))
      → Ends Q m
      → ((t : StorageImpl S Url Etcd Bridge G) (b : B) → Q t b → Ends P (f (t, b)))
      → Ends P (m >>= f)
  Ends->>= Q P (gives (t, b)) f h k = k t b h
  Ends->>= Q P waits f h k = tt
  Ends->>= Q P panics f h k = tt

  Ends-given :
      {A B : Type 0} (P : StorageImpl S Url Etcd Bridge G → A → Type 0) (m : Flow B)
      (f : B → Flow (StorageImpl S Url Etcd Bridge G × A))
      → ((b : B) → m ≡ gives b → Ends P (f b))
      → Ends P (m >>= f)
  Ends-given P (gives b) f k = k b refl
  Ends-given P waits f k = tt
  Ends-given P panics f k = tt

  Ends-await :
      {A : Type 0} (P : StorageImpl S Url Etcd Bridge G → A → Type 0) (closed ended : Bool)
      (m : Flow (StorageImpl S Url Etcd Bridge G × A))
      → Ends P m
      → Ends P (await closed ended m)
  Ends-await P true ended m h = h
  Ends-await P false true m h = h
  Ends-await P false false m h = tt

module _ {S Url Etcd Bridge Backend G : Type 0} (lib : Library S Url Etcd Bridge Backend) where
  abbrev Embeds : StorageImpl S Url Etcd Bridge G → Option Etcd → Type 0
  Embeds t e = t.embedded ≡ some e

  etcd_started-Embeds :
      (made : Result Str Etcd) (t : StorageImpl S Url Etcd Bridge G)
      → Ends Embeds (etcd_started lib made t)
  unfolding cancel_storage
  etcd_started-Embeds (ok srv) t = Ends-await Embeds (lib.ready srv) (is_some t.cause) _ refl
  etcd_started-Embeds (fail e) t = refl

  embedded_etcd-Embeds :
      (dir : Str) (s : StorageImpl S Url Etcd Bridge G) → Ends Embeds (embedded_etcd lib dir s)
  unfolding embedded_etcd
  embedded_etcd-Embeds dir s = by_once s.embedded refl
    where
      by_once :
          (e : Option (Option Etcd)) → s.embedded ≡ e → Ends Embeds (embedded_once lib dir e s)
      by_once (some e) h = h
      by_once none h = Ends-bind Embeds (discovered s) _ λ d.
          Ends-bind Embeds (client_urls lib s) _ λ one.
            Ends-bind Embeds (client_urls lib one.0) _ λ two.
              etcd_started-Embeds (etcd_made lib (etcd_config lib dir d one.1 two.1) d.peers) two.0

  -- The client is of the servers that v3rpc makes of the embedded server.
  record Served (t : StorageImpl S Url Etcd Bridge G) (k : Option (ClientImpl S)) : Type 0 where
    etcd : Option Etcd
    servers : Servers S
    client : ClientImpl S
    embedded : t.embedded ≡ some etcd
    rpc : lib.v3rpc etcd ≡ gives servers
    made : with_server servers new_client ≡ gives client
    given : k ≡ some client

  embed_client-Served :
      (text : Str) (s : StorageImpl S Url Etcd Bridge G) → Ends Served (embed_client lib text s)
  embed_client-Served text s =
      Ends->>= Embeds Served (embedded_etcd lib (trim_prefix (str "embed://") text) s) _
        (embedded_etcd-Embeds (trim_prefix (str "embed://") text) s)
        λ t e h. Ends-given Served (lib.v3rpc e) _ λ servers r.
          Ends-given Served (with_server servers new_client) _ λ c m. record {
            etcd = e;
            servers = servers;
            client = c;
            embedded = h;
            rpc = r;
            made = m;
            given = refl;
          }

  -- A storage with a transport, whose address has a scheme.
  pub record Addressed (s : StorageImpl S Url Etcd Bridge G) (text : Str) (url : Url) : Type 0 where
    pub cfg : TransportConfig
    pub others : List Str
    pub transport : s.transport ≡ some cfg
    pub listed : cfg.server_list ≡ text ∷ others
    pub parsed : lib.parse_url text ≡ ok url

  pub addressed :
      {A : Type 0} (s : StorageImpl S Url Etcd Bridge G) (text : Str) (url : Url)
      (f : Result Str Url → Str → Flow A)
      → Addressed s text url
      → (transport_of s >>= λ cfg. head_of cfg.server_list >>= λ x. f (lib.parse_url x) x)
        ≡ f (ok url) text
  unfolding transport_of
  addressed s text url f a =
      ap
        (λ o. await (is_some o) (is_some s.cause) (gives (config_or_zero o)) >>= λ cfg.
          head_of cfg.server_list >>= λ x. f (lib.parse_url x) x)
        a.transport
      ∙ ap (λ l. head_of l >>= λ x. f (lib.parse_url x) x) a.listed
      ∙ ap (λ u. f u text) a.parsed

  client_of-embed :
      (s : StorageImpl S Url Etcd Bridge G) (text : Str) (url : Url)
      → Addressed s text url
      → s.client ≡ none
      → same (lib.scheme url) (str "embed") ≡ true
      → client_of lib s ≡ embed_client lib text s
  unfolding client_of
  client_of-embed s text url a fresh e =
      ap (λ k. client_once lib k s) fresh
      ∙ addressed s text url (λ u x. client_by lib u x s) a
      ∙ rw e

  raft_handler-embedded :
      (t : StorageImpl S Url Etcd Bridge G) (text : Str) (url : Url) (e : Option Etcd)
      → Addressed t text url
      → t.embedded ≡ some e
      → same (lib.scheme url) (str "embed") ≡ true
      → raft_handler lib t ≡ (deref e >>= λ srv. gives (t, by_etcd srv))
  unfolding raft_handler embedded_etcd
  raft_handler-embedded t text url e a h is_embed =
      addressed t text url (λ u x. raft_by lib u x t) a
      ∙ rw is_embed (
          ap
            (λ o. embedded_once lib (trim_prefix (str "embed://") text) o t >>= λ made.
              deref made.1 >>= λ srv. gives (made.0, by_etcd srv))
            h)

  Served-Addressed :
      (s : StorageImpl S Url Etcd Bridge G) (text : Str) (url : Url)
      (m : Flow (StorageImpl S Url Etcd Bridge G × Option (ClientImpl S)))
      → Addressed s text url
      → Leads Continues s m
      → Ends Served m
      → Ends (λ t k. Served t k × Addressed t text url) m
  Served-Addressed s text url (gives (t, k)) a p q = (
    q,
    record {
      cfg = a.cfg;
      others = a.others;
      transport = p.transport a.cfg a.transport;
      listed = a.listed;
      parsed = a.parsed;
    },
  )
  Served-Addressed s text url waits a p q = tt
  Served-Addressed s text url panics a p q = tt

  -- A storage without a transport and a client, whose factory's hook is called with the transport
  -- of an embedded etcd. If the hook comes to an answer, it is a client; the calls of this client
  -- come to what the same calls come to on the servers that v3rpc makes of the etcd server; and the
  -- handler for etcd's peers hands its requests to this etcd server too, and leaves the storage as
  -- it is, or panics if the server could not be made.
  pub new_etcd3_client-raft_handler :
      (cfg : TransportConfig) (s t : StorageImpl S Url Etcd Bridge G) (text : Str)
      (others : List Str) (url : Url) (r : Result Str (ClientImpl S))
      → s.transport ≡ none
      → s.client ≡ none
      → cfg.server_list ≡ text ∷ others
      → lib.parse_url text ≡ ok url
      → same (lib.scheme url) (str "embed") ≡ true
      → new_etcd3_client lib cfg s ≡ gives (t, r)
      → (etcd : Option Etcd) × (servers : Servers S) × (c : ClientImpl S) × (r ≡ ok c)
        × (lib.v3rpc etcd ≡ gives servers)
        × ((calls : List RpcCall) (st : S)
            → call_all c calls st ≡ gives (served (behind servers) calls st))
        × (raft_handler lib t ≡ (deref etcd >>= λ srv. gives (t, by_etcd srv)))
  unfolding new_etcd3_client with_transport
  new_etcd3_client-raft_handler cfg s t text others url r fresh new listed parsed is_embed h =
      let (k, e, both_hold) = answer in
      let v = both_hold.0 in
      let a = both_hold.1 in
      (
        v.etcd,
        v.servers,
        v.client,
        sym (ap (λ (q : StorageImpl S Url Etcd Bridge G × Result Str (ClientImpl S)). q.1) e)
            ∙ ap (λ o. (available (t, o)).1) v.given,
        v.rpc,
        λ calls st.
            ap (λ m. m >>= λ c. call_all c calls st) (sym v.made)
            ∙ call_all-with_server v.servers calls st,
        raft_handler-embedded t text url v.etcd a v.embedded is_embed,
      )
    where
      at_first : Addressed (record s { transport = first s.transport cfg }) text url
      at_first = record {
        cfg = cfg;
        others = others;
        transport = ap (λ o. first o cfg) fresh;
        listed = listed;
        parsed = parsed;
      }

      s' : StorageImpl S Url Etcd Bridge G
      s' = record s { transport = first s.transport cfg }

      both : Ends (λ t k. Served t k × Addressed t text url) (client_of lib s')
      both = Served-Addressed s' text url (client_of lib s') at_first (client_of-Continues lib s') (
          subst (Ends Served) (sym (client_of-embed s' text url at_first new is_embed))
            (embed_client-Served text s'))

      answer :
          (k : Option (ClientImpl S)) × (available (t, k) ≡ (t, r))
          × (Served t k × Addressed t text url)
      answer = answer_from (λ t k. Served t k × Addressed t text url) (client_of lib s') t r both h
