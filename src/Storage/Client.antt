-- ===== src/Storage/Client.antt =====
-- pkg/storage/client.go: the client whose calls wait for a gate for each service and go to the
-- server behind it, without a connection. A server is what it does with a call: `S` is its state,
-- and requests and responses are texts. The constructors of v3rpc are parameters.
pub mod Served
pub mod Gates
use nanokube.Prelude.{
  ℕ, zero, suc, ◌+◌, ◌-◌, ◌*◌, ◌/◌, ◌%◌, ◌^◌, ◌≤◌, ◌<◌, ◌≡◌, refl, sym, ap, ◌∙◌, subst, ◌≢◌, ◌↔◌,
  ◌⊎◌, inl, inr, Bool, true, false, ◌&&◌, ◌||◌, not, Option, none, some, List, [], ◌∷◌, ◌++◌, map,
  arith, ltb, leb, ◌==◌, if◌then◌else◌, ltb→lt, lt→ltb, leb→le, ==_iff, Bool-cases, Option-cases,
  length, take, drop, length-append, length-drop, length-take, take-append, drop-append,
  take-append-drop, All, All-append, All-split, Str, str, same, same_iff, same_refl, same_ne,
  member, append_left_cancel, has_prefix, has_prefix-append, Dict, lookup, insert, copy_into, IsMap,
  insert-IsMap, or_else, lookup-copy_into, lookup-insert, lookup-insert_self, lookup-insert_ne,
  value_of, Returns, Returns-some, Result, ok, fail, Result-cases,
}
use nanokube.Storage.Flow.{Flow, gives, waits, panics, ◌>>=◌, deref, await}

pub data Gate : Type 0 where
  kv : Gate
  watch : Gate
  lease : Gate
  maintenance : Gate
  cluster : Gate
  auth : Gate

pub data Method : Type 0 where
  range : Method
  put : Method
  delete_range : Method
  txn : Method
  compact : Method
  lease_grant : Method
  lease_revoke : Method
  lease_time_to_live : Method
  lease_leases : Method
  alarm : Method
  status : Method
  defragment : Method
  hash : Method
  hash_kv : Method
  move_leader : Method
  downgrade : Method
  member_add : Method
  member_remove : Method
  member_update : Method
  member_list : Method
  member_promote : Method
  auth_enable : Method
  auth_disable : Method
  auth_status : Method
  authenticate : Method
  user_add : Method
  user_get : Method
  user_list : Method
  user_delete : Method
  user_change_password : Method
  user_grant_role : Method
  user_revoke_role : Method
  role_add : Method
  role_get : Method
  role_list : Method
  role_delete : Method
  role_grant_permission : Method
  role_revoke_permission : Method

-- The gate that a method waits at, and the server that it calls.
unfoldable pub service_of : Method → Gate
service_of range = kv
service_of put = kv
service_of delete_range = kv
service_of txn = kv
service_of compact = kv
service_of lease_grant = lease
service_of lease_revoke = lease
service_of lease_time_to_live = lease
service_of lease_leases = lease
service_of alarm = maintenance
service_of status = maintenance
service_of defragment = maintenance
service_of hash = maintenance
service_of hash_kv = maintenance
service_of move_leader = maintenance
service_of downgrade = maintenance
service_of member_add = cluster
service_of member_remove = cluster
service_of member_update = cluster
service_of member_list = cluster
service_of member_promote = cluster
service_of auth_enable = auth
service_of auth_disable = auth
service_of auth_status = auth
service_of authenticate = auth
service_of user_add = auth
service_of user_get = auth
service_of user_list = auth
service_of user_delete = auth
service_of user_change_password = auth
service_of user_grant_role = auth
service_of user_revoke_role = auth
service_of role_add = auth
service_of role_get = auth
service_of role_list = auth
service_of role_delete = auth
service_of role_grant_permission = auth
service_of role_revoke_permission = auth

abbrev pub Server : Type 0 → Type 0
Server S = Method → Str → S → S × Result Str Str

-- A server's field with its channel; the field may hold nil behind a closed channel.
pub record Slot (S : Type 0) : Type 0 where
  pub server : Option (Server S)
  pub provided : Bool

pub record ClientImpl (S : Type 0) : Type 0 where
  pub kvs : Slot S
  pub watches : Slot S
  pub leases : Slot S
  pub maintains : Slot S
  pub clusters : Slot S
  pub auths : Slot S

-- The servers that v3rpc makes of an etcd server.
pub record Servers (S : Type 0) : Type 0 where
  pub of_kv : Server S
  pub of_watch : Server S
  pub of_lease : Server S
  pub of_maintenance : Server S
  pub of_cluster : Server S
  pub of_auth : Server S

module _ {S : Type 0} where
  abbrev pub empty_slot : Slot S
  empty_slot = record { server = none; provided = false }

  abbrev pub new_client : ClientImpl S
  new_client = record {
    kvs = empty_slot;
    watches = empty_slot;
    leases = empty_slot;
    maintains = empty_slot;
    clusters = empty_slot;
    auths = empty_slot;
  }

  -- The field is set and the channel closed; a channel is not closed twice.
  unfoldable pub fill : Option (Server S) → Slot S → Flow (Slot S)
  fill server slot =
      if slot.provided then panics else gives (record { server = server; provided = true })

  unfoldable pub with_kv : Option (Server S) → ClientImpl S → Flow (ClientImpl S)
  unfolding fill
  with_kv server c = fill server c.kvs >>= λ slot. gives (record c { kvs = slot })

  unfoldable pub with_watch : Option (Server S) → ClientImpl S → Flow (ClientImpl S)
  unfolding fill
  with_watch server c = fill server c.watches >>= λ slot. gives (record c { watches = slot })

  unfoldable pub with_lease : Option (Server S) → ClientImpl S → Flow (ClientImpl S)
  unfolding fill
  with_lease server c = fill server c.leases >>= λ slot. gives (record c { leases = slot })

  unfoldable pub with_maintenance : Option (Server S) → ClientImpl S → Flow (ClientImpl S)
  unfolding fill
  with_maintenance server c =
      fill server c.maintains >>= λ slot. gives (record c { maintains = slot })

  unfoldable pub with_cluster : Option (Server S) → ClientImpl S → Flow (ClientImpl S)
  unfolding fill
  with_cluster server c = fill server c.clusters >>= λ slot. gives (record c { clusters = slot })

  unfoldable pub with_auth : Option (Server S) → ClientImpl S → Flow (ClientImpl S)
  unfolding fill
  with_auth server c = fill server c.auths >>= λ slot. gives (record c { auths = slot })

  unfoldable pub with_server : Servers S → ClientImpl S → Flow (ClientImpl S)
  unfolding with_kv with_watch with_lease with_maintenance with_cluster with_auth
  with_server s c =
      with_kv (some s.of_kv) c
      >>= with_watch (some s.of_watch)
      >>= with_lease (some s.of_lease)
      >>= with_maintenance (some s.of_maintenance)
      >>= with_cluster (some s.of_cluster)
      >>= with_auth (some s.of_auth)

  -- The bridge is every server but the one for auth, which is nil.
  unfoldable pub with_bridge : Server S → ClientImpl S → Flow (ClientImpl S)
  unfolding with_kv with_watch with_lease with_maintenance with_cluster with_auth
  with_bridge b c =
      with_kv (some b) c
      >>= with_watch (some b)
      >>= with_lease (some b)
      >>= with_maintenance (some b)
      >>= with_cluster (some b)
      >>= with_auth none

  abbrev pub slot_of : Gate → ClientImpl S → Slot S
  slot_of kv c = c.kvs
  slot_of watch c = c.watches
  slot_of lease c = c.leases
  slot_of maintenance c = c.maintains
  slot_of cluster c = c.clusters
  slot_of auth c = c.auths

  -- The server that a call reaches, whose context is done or not.
  abbrev pub reach : Slot S → Bool → Flow (Server S)
  reach slot ended = await slot.provided ended (deref slot.server)

  -- Any of the methods that take one request.
  unfoldable pub call_method : ClientImpl S → Method → Str → Bool → S → Flow (S × Result Str Str)
  unfolding service_of
  call_method c m req ended st =
      reach (slot_of (service_of m) c) ended >>= λ server. gives (server m req st)

  -- Watch and LeaseKeepAlive return a stream at once; these are the servers that their goroutines
  -- hand it to.
  unfoldable pub watch_stream : ClientImpl S → Bool → Flow (Server S)
  watch_stream c ended = reach c.watches ended

  unfoldable pub lease_keep_alive : ClientImpl S → Bool → Flow (Server S)
  lease_keep_alive c ended = reach c.leases ended

  unfoldable pub snapshot : ClientImpl S → Str → Result Str Str
  snapshot c req = fail (str "nanokube: in-process etcd snapshot streaming not supported")
