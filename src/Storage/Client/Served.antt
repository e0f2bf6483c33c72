-- ===== src/Storage/Client/Served.antt =====
-- What the calls of a storage client come to, behind a server, behind a bridge, and before either.
use nanokube.Prelude.{
  ◌≡◌, refl, Bool, true, false, ◌||◌, none, some, List, [], ◌∷◌, if◌then◌else◌, Str, Result,
}
use nanokube.Storage.Flow.{Flow, gives, panics, ◌>>=◌}
use nanokube.Storage.Client.{
  Gate, kv, watch, lease, maintenance, cluster, auth, Method, service_of, Server, Slot, ClientImpl,
  Servers, new_client, fill, with_server, with_bridge, call_method,
}

-- A method's call: the request, and whether its context is done as it waits.
pub record RpcCall : Type 0 where
  pub method : Method
  pub text : Str
  pub ended : Bool

abbrev pub same_gate : Gate → Gate → Bool
same_gate kv kv = true
same_gate watch watch = true
same_gate lease lease = true
same_gate maintenance maintenance = true
same_gate cluster cluster = true
same_gate auth auth = true
same_gate _ _ = false

abbrev pub asks_auth : List RpcCall → Bool
asks_auth [] = false
asks_auth (r ∷ rs) = same_gate (service_of r.method) auth || asks_auth rs

module _ {S : Type 0} where
  -- A call's answer, before those of the calls behind it.
  abbrev pub answer_first :
      (S → Flow (S × List (Result Str Str))) → S × Result Str Str → Flow (S × List (Result Str Str))
  answer_first rest one = rest one.0 >>= λ more. gives (more.0, one.1 ∷ more.1)

  -- Calls one behind another, on a client.
  unfoldable pub call_all : ClientImpl S → List RpcCall → S → Flow (S × List (Result Str Str))
  call_all c [] st = gives (st, [])
  call_all c (r ∷ rs) st = call_method c r.method r.text r.ended st >>= answer_first (call_all c rs)

  -- The calls made on the servers themselves.
  unfoldable pub served : (Gate → Server S) → List RpcCall → S → S × List (Result Str Str)
  served servers [] st = (st, [])
  served servers (r ∷ rs) st =
      let one = servers (service_of r.method) r.method r.text st in
      let more = served servers rs one.0 in (more.0, one.1 ∷ more.1)

  abbrev pub behind : Servers S → Gate → Server S
  behind s kv = s.of_kv
  behind s watch = s.of_watch
  behind s lease = s.of_lease
  behind s maintenance = s.of_maintenance
  behind s cluster = s.of_cluster
  behind s auth = s.of_auth

  abbrev pub filled : Server S → Slot S
  filled server = record { server = some server; provided = true }

  abbrev pub served_by : Servers S → ClientImpl S
  served_by s = record {
    kvs = filled s.of_kv;
    watches = filled s.of_watch;
    leases = filled s.of_lease;
    maintains = filled s.of_maintenance;
    clusters = filled s.of_cluster;
    auths = filled s.of_auth;
  }

  abbrev pub bridged_by : Server S → ClientImpl S
  bridged_by b = record {
    kvs = filled b;
    watches = filled b;
    leases = filled b;
    maintains = filled b;
    clusters = filled b;
    auths = record { server = none; provided = true };
  }

  call_method-served_by :
      (g : Gate) (s : Servers S) (m : Method) (text : Str) (ended : Bool) (st : S)
      → service_of m ≡ g
      → call_method (served_by s) m text ended st ≡ gives (behind s g m text st)
  unfolding call_method
  call_method-served_by kv s m text ended st e = rw e
  call_method-served_by watch s m text ended st e = rw e
  call_method-served_by lease s m text ended st e = rw e
  call_method-served_by maintenance s m text ended st e = rw e
  call_method-served_by cluster s m text ended st e = rw e
  call_method-served_by auth s m text ended st e = rw e

  call_all-served_by :
      (s : Servers S) (calls : List RpcCall) (st : S)
      → call_all (served_by s) calls st ≡ gives (served (behind s) calls st)
  unfolding call_all served
  call_all-served_by s [] st = refl
  call_all-served_by s (r ∷ rs) st =
      rw (call_method-served_by _ s r.method r.text r.ended st refl)
        (rw (call_all-served_by s rs (behind s (service_of r.method) r.method r.text st).0) refl)

  -- Any calls of a client that was made with WithServer, one behind another, wherever their
  -- contexts are done, neither wait nor panic: they come to what the same calls come to on the
  -- servers of etcd, each on the server of its gate, with the same answers and the same state
  -- behind them.
  pub call_all-with_server :
      (s : Servers S) (calls : List RpcCall) (st : S)
      → (with_server s new_client >>= λ c. call_all c calls st) ≡ gives (served (behind s) calls st)
  unfolding with_server fill
  call_all-with_server s calls st = call_all-served_by s calls st

  call_method-bridged_by :
      (g : Gate) (b : Server S) (m : Method) (text : Str) (ended : Bool) (st : S)
      → service_of m ≡ g
      → call_method (bridged_by b) m text ended st
        ≡ (if same_gate g auth then panics else gives (b m text st))
  unfolding call_method
  call_method-bridged_by kv b m text ended st e = rw e
  call_method-bridged_by watch b m text ended st e = rw e
  call_method-bridged_by lease b m text ended st e = rw e
  call_method-bridged_by maintenance b m text ended st e = rw e
  call_method-bridged_by cluster b m text ended st e = rw e
  call_method-bridged_by auth b m text ended st e = rw e

  -- A call that panics or not, and the calls behind it.
  call_on :
      (this later : Bool) (x : S × Result Str Str) (rest : S → Flow (S × List (Result Str Str)))
      (y : S × List (Result Str Str))
      → rest x.0 ≡ (if later then panics else gives y)
      → ((if this then panics else gives x) >>= answer_first rest)
        ≡ (if this || later then panics else gives (y.0, x.1 ∷ y.1))
  call_on true later x rest y h = refl
  call_on false true x rest y h = rw h
  call_on false false x rest y h = rw h

  call_all-bridged_by :
      (b : Server S) (calls : List RpcCall) (st : S)
      → call_all (bridged_by b) calls st
        ≡ (if asks_auth calls then panics else gives (served (λ _. b) calls st))
  unfolding call_all served
  call_all-bridged_by b [] st = refl
  call_all-bridged_by b (r ∷ rs) st =
      rw (call_method-bridged_by _ b r.method r.text r.ended st refl) (
        call_on _ (asks_auth rs) (b r.method r.text st) (call_all (bridged_by b) rs) _
          (call_all-bridged_by b rs (b r.method r.text st).0))

  -- Any calls of a client that was made with WithBridge, one behind another, wherever their
  -- contexts are done: if one of them is a call of auth, the program panics; if none is, they
  -- come to what the same calls come to on the bridge, with the same answers and the same state.
  pub call_all-with_bridge :
      (b : Server S) (calls : List RpcCall) (st : S)
      → (with_bridge b new_client >>= λ c. call_all c calls st)
        ≡ (if asks_auth calls then panics else gives (served (λ _. b) calls st))
  unfolding with_bridge fill
  call_all-with_bridge b calls st = call_all-bridged_by b calls st
