-- ===== src/Network/Pool.antt =====
-- NetworkImpl and its allocated networks (pkg/nanokube/network.go). A network's key is its address
-- (the source's key is that address in print). The order of the list of networks stands for the
-- order in which sync.Map.Range visits them. A sandbox UID is a text, `nil` is `none`.
pub mod Keys
pub mod Exclusive
pub mod Reuse
use nanokube.Prelude.{
  ℕ, zero, suc, ◌+◌, ◌-◌, ◌*◌, ◌/◌, ◌%◌, ◌^◌, ◌≤◌, ◌<◌, ◌≡◌, refl, sym, ap, ◌∙◌, subst, ◌≢◌, ◌↔◌,
  ◌⊎◌, inl, inr, Bool, true, false, ◌&&◌, ◌||◌, not, Option, none, some, List, [], ◌∷◌, ◌++◌, map,
  arith, ltb, leb, ◌==◌, if◌then◌else◌, ltb→lt, lt→ltb, leb→le, ==_iff, Bool-cases, Option-cases,
  length, take, drop, length-append, length-drop, length-take, take-append, drop-append,
  take-append-drop, All, All-append, All-split, Str, str, same, same_iff, same_refl, same_ne,
  member, append_left_cancel, has_prefix, has_prefix-append, Dict, lookup, insert, copy_into, IsMap,
  insert-IsMap, or_else, lookup-copy_into, lookup-insert, lookup-insert_self, lookup-insert_ne,
  value_of, Returns, Returns-some, Result, ok, fail, Result-cases,
}
use nanokube.Network.Address.{subnet_mask, subnet_hosts, advance, pinned_gateway, mask_subnet}

pub record IpNet : Type 0 where
  pub ip : Str
  pub mask : Str

-- What GetNetwork tells of a network.
pub record Found : Type 0 where
  pub network_type : Str
  pub gateway : Str
  pub net : IpNet

-- `v1.NetworkService`, which the driver implements over the container runtime. Its state is the
-- runtime's; an error is its message.
pub record Service (S : Type 0) : Type 0 where
  pub create_network : S → Option IpNet → Option Str → S × Result Str Str
  pub get_network : S → Str → Result Str Found
  pub remove_network : S → Str → S × Option Str

-- `allocatedNetworkImpl`.
pub record Allocated : Type 0 where
  pub id : Str
  pub network_type : Str
  pub gateway : Str
  pub net : IpNet
  pub sandbox_uid : Option Str

-- `NetworkImpl`, with the state of its service, and whether nanokube was cancelled.
pub record Network (S : Type 0) : Type 0 where
  pub default_done : Bool
  pub default_net : Option Allocated
  pub networks : Dict Allocated
  pub next_ip : Str
  pub service : S
  pub cancelled : Bool

abbrev pub uids_conflict : Option Str → Option Str → Bool
uids_conflict (some u) (some v) = not (same u v)
uids_conflict _ _ = false

-- `WithSandboxUID`: it refuses to take a network over, and otherwise swaps the entry and returns
-- the one that it replaced.
unfoldable pub with_sandbox_uid :
    Option Str → Allocated → Dict Allocated → Option Allocated × Dict Allocated
with_sandbox_uid uid a m =
    if uids_conflict a.sandbox_uid uid
    then (none, m)
    else (lookup a.net.ip m, insert a.net.ip (record a { sandbox_uid = uid }) m)

-- `Deallocate`, with whether it succeeded.
unfoldable pub deallocate : Allocated → Dict Allocated → Bool × Dict Allocated
deallocate a m =
    let (previous, m') = with_sandbox_uid none a m in
    (elim previous [ none ↦ false | some _ ↦ true ], m')

-- The scan of FromConfig for a network whose sandbox is gone.
unfoldable pub reclaimable : Str → Dict Allocated → Option Allocated
reclaimable default_id [] = none
reclaimable default_id ((k, a) ∷ m) =
    let later = reclaimable default_id m in
    if same a.id default_id then later else elim a.sandbox_uid [ some _ ↦ later | none ↦ some a ]

-- `FromID`, `FromUID`, `FromIP`.
unfoldable pub from_id : Str → Dict Allocated → Option Allocated
from_id id [] = none
from_id id ((k, a) ∷ m) = if same a.id id then some a else from_id id m

unfoldable pub from_uid : Str → Dict Allocated → Option Allocated
from_uid uid [] = none
from_uid uid ((k, a) ∷ m) =
    let later = from_uid uid m in
    elim a.sandbox_uid [ none ↦ later | some u ↦ if same u uid then some a else later ]

-- The address is `none` where `To4` gives nil.
unfoldable pub from_ip : Option Str → Dict Allocated → Option Allocated
from_ip none m = none
from_ip (some ip) m = lookup (mask_subnet ip) m

abbrev pub fresh_allocated : Str → Found → Allocated
fresh_allocated id f = record {
  id = id;
  network_type = f.network_type;
  gateway = f.gateway;
  net = f.net;
  sandbox_uid = none;
}

module _ {S : Type 0} (v : Service S) where
  abbrev pub cancel : Network S → Network S
  cancel n = record n { cancelled = true }

  -- `newAllocatedNetwork`, and its part behind GetNetwork: `LoadOrStore`.
  abbrev pub load_or_store :
      Str → Found → Network S → Option Allocated → Network S × Result Str Allocated
  load_or_store id f n (some a) = (n, ok a)
  load_or_store id f n none = (
    record n { networks = insert f.net.ip (fresh_allocated id f) n.networks },
    ok (fresh_allocated id f),
  )

  abbrev pub network_found : Str → Network S → Result Str Found → Network S × Result Str Allocated
  network_found id n (fail e) = (n, fail e)
  network_found id n (ok f) = load_or_store id f n (lookup f.net.ip n.networks)

  unfoldable pub new_allocated_network : Str → Network S → Network S × Result Str Allocated
  new_allocated_network id n = network_found id n (v.get_network n.service id)

  -- The body of `defaultNetOnce`, its last step first: each function takes what a call of the
  -- service gave, and goes on from there.
  abbrev pub set_default : Str → Network S × Result Str Allocated → Network S
  set_default base (n, fail e) = cancel n
  set_default base (n, ok a) = record n {
    default_net = some a;
    next_ip = advance base subnet_hosts;
  }

  abbrev pub static_created : Str → Network S → S × Result Str Str → Network S
  static_created base n (s, fail e) = cancel (record n { service = s })
  static_created base n (s, ok id) =
      set_default base (new_allocated_network id (record n { service = s }))

  abbrev pub reserved_removed : Str → Network S → S × Option Str → Network S
  reserved_removed base n (s, some why) = cancel (record n { service = s })
  reserved_removed base n (s, none) =
      static_created base (record n { service = s })
        (v.create_network s (some (record { ip = base; mask = subnet_mask }))
          (some (pinned_gateway base subnet_mask)))

  abbrev pub reserved_found : Str → Network S → Result Str Found → Network S
  reserved_found id n (fail e) = cancel n
  reserved_found id n (ok f) = reserved_removed f.net.ip n (v.remove_network n.service id)

  abbrev pub reserved_created : Network S → S × Result Str Str → Network S
  reserved_created n (s, fail e) = cancel (record n { service = s })
  reserved_created n (s, ok id) = reserved_found id (record n { service = s }) (v.get_network s id)

  unfoldable pub make_default : Network S → Network S
  make_default n = reserved_created n (v.create_network n.service none none)

  -- `Default`, with its `sync.Once`.
  abbrev pub default_made : Network S → Network S
  default_made n = if n.default_done then n else record (make_default n) { default_done = true }

  abbrev pub default_given : Network S → Option Allocated → Network S × Option Allocated
  default_given n none = (cancel n, none)
  default_given n (some d) = (n, some d)

  unfoldable pub default : Network S → Network S × Option Allocated
  default n = default_given (default_made n) (default_made n).default_net

  -- `network.WithSandboxUID(&sandboxUID), nil`.
  unfoldable pub claim : Str → Allocated → Network S → Network S × Result Str (Option Allocated)
  claim uid a n =
      let (previous, m) = with_sandbox_uid (some uid) a n.networks in
      (record n { networks = m }, ok previous)

  -- The part of FromConfig that makes a new network, its last step first.
  abbrev pub next_allocated :
      Str → Network S × Result Str Allocated → Network S × Result Str (Option Allocated)
  next_allocated uid (n, fail e) = (n, fail e)
  next_allocated uid (n, ok a) = claim uid a (record n { next_ip = advance n.next_ip subnet_hosts })

  abbrev pub next_created :
      Str → Network S → S × Result Str Str → Network S × Result Str (Option Allocated)
  next_created uid n (s, fail e) = (record n { service = s }, fail e)
  next_created uid n (s, ok id) =
      next_allocated uid (new_allocated_network id (record n { service = s }))

  unfoldable pub allocate : Str → Network S → Network S × Result Str (Option Allocated)
  allocate uid n =
      next_created uid n
        (v.create_network n.service (some (record { ip = n.next_ip; mask = subnet_mask })) none)

  abbrev pub reclaim_or_allocate :
      Str → Network S → Option Allocated → Network S × Result Str (Option Allocated)
  reclaim_or_allocate uid n (some free) = claim uid free n
  reclaim_or_allocate uid n none = allocate uid n

  -- `FromConfig`; the flag says that the pod comes from a file.
  abbrev pub from_config_in :
      Str → Bool → Network S × Option Allocated → Network S × Result Str (Option Allocated)
  from_config_in uid is_file (n, none) = (n, fail (str "default network not initialized"))
  from_config_in uid is_file (n, some d) =
      if is_file then claim uid d n else reclaim_or_allocate uid n (reclaimable d.id n.networks)

  unfoldable pub from_config : Str → Bool → Network S → Network S × Result Str (Option Allocated)
  from_config uid is_file n = from_config_in uid is_file (default n)

  -- `Networks`.
  abbrev pub networks_of : Network S → List Allocated
  networks_of n = map (λ e. e.1) n.networks

  -- `FromStatus`, of whether the pod comes from a file and its address; a nil status is `none`.
  abbrev pub from_status_in :
      Bool → Option Str → Network S × Option Allocated → Network S × Result Str (Option Allocated)
  from_status_in is_file ip (n, none) = (n, fail (str "default network not initialized"))
  from_status_in is_file ip (n, some d) =
      (n, ok (if is_file then some d else from_ip ip n.networks))

  unfoldable pub from_status :
      Option (Bool × Option Str) → Network S → Network S × Result Str (Option Allocated)
  from_status none n = (n, ok none)
  from_status (some (is_file, ip)) n = from_status_in is_file ip (default n)
