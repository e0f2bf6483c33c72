-- ===== src/Docker/Networks.antt =====
-- GetNetwork, CreateNetwork and RemoveNetwork of pkg/driver/docker/docker.go: the service that the
-- pool of networks calls. The texts of addresses and the parsers of the net package are a parameter.
pub mod Readback
mod Tests
use nanokube.Prelude.{
  ℕ, zero, suc, ◌+◌, ◌-◌, ◌*◌, ◌/◌, ◌%◌, ◌^◌, ◌≤◌, ◌<◌, ◌≡◌, refl, sym, ap, ◌∙◌, subst, ◌≢◌, ◌↔◌,
  ◌⊎◌, inl, inr, Bool, true, false, ◌&&◌, ◌||◌, not, Option, none, some, List, [], ◌∷◌, ◌++◌, map,
  arith, ltb, leb, ◌==◌, if◌then◌else◌, ltb→lt, lt→ltb, leb→le, ==_iff, Bool-cases, Option-cases,
  length, take, drop, length-append, length-drop, length-take, take-append, drop-append,
  take-append-drop, All, All-append, All-split, Str, str, same, same_iff, same_refl, same_ne,
  member, append_left_cancel, has_prefix, has_prefix-append, Dict, lookup, insert, copy_into, IsMap,
  insert-IsMap, or_else, lookup-copy_into, lookup-insert, lookup-insert_self, lookup-insert_ne,
  value_of, Returns, Returns-some, Result, ok, fail, Result-cases,
}
use nanokube.Network.Pool.{IpNet, Found, Service}
use nanokube.Tags.Builder.{Codec, set, new_tag_builder, build, key_name, key_type, type_network}

-- A gateway that does not parse is the empty address.
pub record AddressTexts : Type 0 where
  pub ip_text : Str → Str
  pub net_text : IpNet → Str
  pub parse_ip : Str → Str
  pub parse_cidr : Str → Result Str IpNet

pub record IpamConfig : Type 0 where
  pub subnet : Str
  pub gateway : Str

pub record NetworkInspect : Type 0 where
  pub driver : Str
  pub ipam : List IpamConfig

-- `network.CreateOptions`, without the options of the bridge, which are constant.
pub record NetworkWish : Type 0 where
  pub name : Str
  pub driver : Str
  pub labels : Dict Str
  pub ipam : List IpamConfig

pub record NetworkClient (S : Type 0) : Type 0 where
  pub network_inspect : S → Str → Result Str NetworkInspect
  pub network_create : S → NetworkWish → S × Result Str Str
  pub network_remove : S → Str → S × Option Str

-- `strings.ReplaceAll(_, ".", "-")`.
abbrev pub dashed : Str → Str
dashed t = map (λ c. if c == b'.' then b'-' else c) t

abbrev pub invalid_ipam : Str
invalid_ipam = str "invalid ipam config"

abbrev pub bridge : Str
bridge = str "bridge"

module _ (t : AddressTexts) where
  abbrev pub found_net : Str → Str → Result Str IpNet → Result Str Found
  found_net driver gateway (fail e) = fail e
  found_net driver gateway (ok net) =
      ok (record { network_type = driver; gateway = t.parse_ip gateway; net = net })

  abbrev pub found_in : NetworkInspect → List IpamConfig → Result Str Found
  found_in i [] = fail invalid_ipam
  found_in i (x ∷ xs) =
      if same x.subnet []
      then fail invalid_ipam
      else found_net i.driver x.gateway (t.parse_cidr x.subnet)

  abbrev pub found_network : Result Str NetworkInspect → Result Str Found
  found_network (fail e) = fail e
  found_network (ok i) = found_in i i.ipam

  abbrev pub suffix_of : Option IpNet → Str
  suffix_of none = bridge
  suffix_of (some net) = dashed (t.ip_text net.ip)

  abbrev pub gateway_text : Option Str → Str
  gateway_text none = []
  gateway_text (some g) = t.ip_text g

  abbrev pub ipam_of : Option IpNet → Option Str → List IpamConfig
  ipam_of none gateway = []
  ipam_of (some net) gateway =
      record { subnet = t.net_text net; gateway = gateway_text gateway } ∷ []

  unfoldable pub network_wish : Codec → Str → Str → Option IpNet → Option Str → NetworkWish
  network_wish c prefix driver net gateway =
      let built = build c (
        set key_name (suffix_of net) (set key_type type_network (new_tag_builder prefix driver))) in
      record { name = built.0; driver = bridge; labels = built.1; ipam = ipam_of net gateway }

  module _ {S : Type 0} (k : NetworkClient S) where
    -- GetNetwork.
    unfoldable pub get_network : S → Str → Result Str Found
    get_network s id = found_network (k.network_inspect s id)

    -- CreateNetwork, of the only type that the pool asks for.
    unfoldable pub create_network :
        Codec → Str → Str → S → Option IpNet → Option Str → S × Result Str Str
    create_network c prefix driver s net gateway =
        k.network_create s (network_wish c prefix driver net gateway)

    -- The driver as the service of the pool.
    abbrev pub network_service : Codec → Str → Str → Service S
    network_service c prefix driver = record {
      create_network = create_network c prefix driver;
      get_network = get_network;
      remove_network = λ s id. k.network_remove s id;
    }
