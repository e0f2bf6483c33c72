-- ===== src/Discovery/Peers.antt =====
-- WithTunnel, WithoutTunnel and Peers of pkg/discovery/discovery.go: a node registers its tunnel
-- with the service under its host and port, and finds the other nodes there. The service, JSON and
-- the functions of `net` are parameters; what WithoutTunnel is answered is only logged.
pub mod Agree
use nanokube.Prelude.{
  ℕ, zero, suc, ◌+◌, ◌-◌, ◌*◌, ◌/◌, ◌%◌, ◌^◌, ◌≤◌, ◌<◌, ◌≡◌, refl, sym, ap, ◌∙◌, subst, ◌≢◌, ◌↔◌,
  ◌⊎◌, inl, inr, Bool, true, false, ◌&&◌, ◌||◌, not, Option, none, some, List, [], ◌∷◌, ◌++◌, map,
  arith, ltb, leb, ◌==◌, if◌then◌else◌, ltb→lt, lt→ltb, leb→le, ==_iff, Bool-cases, Option-cases,
  length, take, drop, length-append, length-drop, length-take, take-append, drop-append,
  take-append-drop, All, All-append, All-split, Str, str, same, same_iff, same_refl, same_ne,
  member, append_left_cancel, has_prefix, has_prefix-append, Dict, lookup, insert, copy_into, IsMap,
  insert-IsMap, or_else, lookup-copy_into, lookup-insert, lookup-insert_self, lookup-insert_ne,
  value_of, Returns, Returns-some, Result, ok, fail, Result-cases,
}
use nanokube.Storage.Dispatch.{trim_prefix}

-- A tunnel, with its port as a text.
pub record Tunnel : Type 0 where
  pub hostname : Str
  pub port : Str

pub record PeerUrl : Type 0 where
  pub scheme : Str
  pub host : Str

-- What a request comes to: the error of making it or of `do`, or a status and a body that may fail.
pub data ServiceReply : Type 0 where
  not_made : Str → ServiceReply
  not_done : Str → ServiceReply
  replied : ℕ → Result Str Str → ServiceReply

pub record NetLibrary : Type 0 where
  pub join_host_port : Str → Str → Str
  -- the host of a host with a port
  pub split_host_port : Str → Option Str
  pub unmarshal : Str → Result Str (List Str)
  pub status_text : ℕ → Str

abbrev pub peer_prefix : Str
peer_prefix = str "peer:"

module _ (lib : NetLibrary) where
  -- The key under which a tunnel is registered, and under which it is deleted.
  unfoldable pub peer_key : Tunnel → Str
  peer_key t = peer_prefix ++ lib.join_host_port t.hostname t.port

  -- WithTunnel, with the reason for which it cancels the context.
  unfoldable pub tunnel_registered : ServiceReply → Option Str
  tunnel_registered (not_made e) = some (str "failed to create request: " ++ e)
  tunnel_registered (not_done e) = some (str "failed to do request: " ++ e)
  tunnel_registered (replied code body) =
      if code == 200 then none else some (str "unexpected status code: " ++ lib.status_text code)

  -- The tunnel is kept once, and registered.
  abbrev pub tunnel_once : Option Tunnel → Tunnel → Option Tunnel × Option Str
  tunnel_once none t = (some t, some (peer_key t))
  tunnel_once (some old) t = (some old, none)

  unfoldable pub with_tunnel : Tunnel → Option Tunnel → Option Tunnel × Option Str
  unfolding peer_key
  with_tunnel t kept = tunnel_once kept t

  -- The key that WithoutTunnel deletes, if a tunnel was registered.
  unfoldable pub without_tunnel : Option Tunnel → Option Tunnel → Option Str
  unfolding peer_key
  without_tunnel none kept = none
  without_tunnel (some t) none = none
  without_tunnel (some t) (some old) = some (peer_key t)

  abbrev pub peer_url : Str → List PeerUrl
  peer_url host = record { scheme = str "https"; host = host } ∷ []

  abbrev pub values_in : Result Str (List Str) → List Str
  values_in (ok values) = values
  values_in (fail e) = []

  abbrev pub values_of_body : Result Str Str → List Str
  values_of_body (ok body) = values_in (lib.unmarshal body)
  values_of_body (fail e) = []

  -- The values of the answer; there are none where Peers gives up.
  unfoldable pub values_of : ServiceReply → List Str
  values_of (not_made e) = []
  values_of (not_done e) = []
  values_of (replied code body) = if code == 200 then values_of_body body else []

  abbrev pub add_peer_at : Str → Option Str → Dict (List PeerUrl) → Dict (List PeerUrl)
  add_peer_at peer none peers = peers
  add_peer_at peer (some host) peers = insert host (peer_url peer) peers

  -- The loop of Peers.
  unfoldable pub add_peers : List Str → Dict (List PeerUrl) → Dict (List PeerUrl)
  unfolding insert has_prefix
  add_peers [] peers = peers
  add_peers (v ∷ vs) peers =
      let peer = trim_prefix peer_prefix v in
      add_peers vs (add_peer_at peer (lib.split_host_port peer) peers)

  -- Peers of a node with its tunnel.
  unfoldable pub peers : Tunnel → ServiceReply → Dict (List PeerUrl)
  unfolding values_of add_peers
  peers t reply =
      add_peers (values_of reply)
        ((t.hostname, peer_url (lib.join_host_port t.hostname t.port)) ∷ [])
