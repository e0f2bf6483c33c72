-- ===== src/Docker/Networks/Tests.antt =====
-- A network on a runtime that holds the last one that was created.
use nanokube.Prelude.{
  true, false, ◌≡◌, refl, ap, Option, none, some, List, [], ◌∷◌, ◌++◌, length, take, drop, ℕ, ◌-◌,
  ◌%◌, ◌==◌, if◌then◌else◌, Str, str, same, lookup, insert, Result, ok, fail,
}
use nanokube.Network.Pool.{IpNet, Network, new_allocated_network}
use nanokube.Tags.Builder.{Codec, empty_sandbox_config, empty_container_config}
use nanokube.Docker.Networks.{
  AddressTexts, IpamConfig, NetworkInspect, NetworkWish, NetworkClient, create_network,
  network_service,
}
use nanokube.Docker.Networks.Readback.{
  ReadsBack, KeepsNetworks, entry_of, new_allocated_network-create_network,
}

-- A byte without the bits that a mask of leading ones leaves out, and an address without them.
abbrev masked_byte : ℕ → ℕ → ℕ
masked_byte x m = x - x % (256 - m)

unfoldable masked : Str → Str → Str
masked [] mask = []
masked (x ∷ xs) [] = []
masked (x ∷ xs) (m ∷ ms) = masked_byte x m ∷ masked xs ms

unfoldable net_of : Str → Result Str IpNet
unfolding masked
net_of [] = fail (str "invalid CIDR address")
net_of (n ∷ s) = ok (record { ip = masked (take n s) (drop n s); mask = drop n s })

abbrev mapped : Str
mapped = 0 ∷ 0 ∷ 0 ∷ 0 ∷ 0 ∷ 0 ∷ 0 ∷ 0 ∷ 0 ∷ 0 ∷ 255 ∷ 255 ∷ []

-- An address is printed as its four bytes and read as sixteen; a net is printed as its address,
-- measured, and its mask, and read without the bits of a host.
abbrev texts : AddressTexts
texts = record {
  ip_text = λ ip. if length ip == 16 then drop 12 ip else ip;
  net_text = λ net. length net.ip ∷ (net.ip ++ net.mask);
  parse_ip = λ s. mapped ++ s;
  parse_cidr = net_of;
}

abbrev inspected_net : Option NetworkWish → Result Str NetworkInspect
inspected_net none = fail (str "no such network")
inspected_net (some w) = ok (record { driver = w.driver; ipam = w.ipam })

abbrev client : NetworkClient (Option NetworkWish)
client = record {
  network_inspect = λ s id. inspected_net s;
  network_create = λ s w. (some w, ok (str "n1"));
  network_remove = λ s id. (none, none);
}

client-KeepsNetworks : KeepsNetworks client
client-KeepsNetworks s w id x one made =
    ap (λ (xs : List IpamConfig). ok (record { driver = w.driver; ipam = xs })) one

abbrev codec : Codec
codec = record {
  encode_sandbox = λ x. str "P";
  decode_sandbox = λ s. empty_sandbox_config;
  encode_container = λ y. str "C";
  decode_container = λ s. empty_container_config;
}

abbrev pool : Network (Option NetworkWish)
pool = record {
  default_done = true;
  default_net = none;
  networks = [];
  next_ip = [];
  service = none;
  cancelled = false;
}

abbrev net : IpNet
net = record { ip = 172 ∷ 18 ∷ 0 ∷ 0 ∷ []; mask = 255 ∷ 255 ∷ 255 ∷ 240 ∷ [] }

abbrev made : Option NetworkWish
made =
    (create_network texts client codec (str "nanokube") (str "docker") none (some net)
      (some (172 ∷ 18 ∷ 0 ∷ 14 ∷ []))).0

abbrev gateway : Str
gateway = 172 ∷ 18 ∷ 0 ∷ 14 ∷ []

texts-ReadsBack : ReadsBack texts net gateway
unfolding same net_of
texts-ReadsBack = record { net_back = refl; net_text = refl; ip_back = refl }

new_allocated_network-create_network_example :
    (g : Str) × (texts.ip_text g ≡ gateway)
    × (new_allocated_network
          (network_service texts client codec (str "nanokube") (str "docker"))
          (str "n1")
          (record pool { service = made })
        ≡ (
          record pool { service = made; networks = insert net.ip (entry_of (str "n1") g net) [] },
          ok (entry_of (str "n1") g net),
        ))
unfolding create_network lookup
new_allocated_network-create_network_example =
    new_allocated_network-create_network texts client codec (str "nanokube") (str "docker") pool net
      gateway (str "n1") texts-ReadsBack client-KeepsNetworks refl refl
