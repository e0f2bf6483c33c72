-- ===== src/Docker/Networks/Readback.antt =====
-- A network that the driver creates is read back as it was asked for.
use nanokube.Prelude.{
  ◌≡◌, refl, ap, ◌∙◌, false, none, some, [], ◌∷◌, if◌then◌else◌, Str, same, lookup, insert, ok,
  fail,
}
use nanokube.Network.Pool.{
  IpNet, Found, Allocated, Network, new_allocated_network, network_found, load_or_store,
}
use nanokube.Tags.Builder.{Codec}
use nanokube.Docker.Networks.{
  AddressTexts, IpamConfig, NetworkWish, NetworkClient, found_network, found_net, network_wish,
  get_network, create_network, network_service, bridge, invalid_ipam,
}

-- What the parsers make of the texts of one subnet and one gateway: a subnet whose address has no
-- bits of a host is read back, and a gateway is read as an address that prints the same, though it
-- may be longer than the one that was printed.
pub record ReadsBack (t : AddressTexts) (net : IpNet) (gateway : Str) : Type 0 where
  pub net_back : t.parse_cidr (t.net_text net) ≡ ok net
  pub net_text : same (t.net_text net) [] ≡ false
  pub ip_back : t.ip_text (t.parse_ip (t.ip_text gateway)) ≡ t.ip_text gateway

-- A network that is created with addresses of its own is inspected as it was created.
abbrev pub KeepsNetworks : {S : Type 0} → NetworkClient S → Type 0
KeepsNetworks {S} k =
    (s : S) (w : NetworkWish) (id : Str) (x : IpamConfig)
    → w.ipam ≡ x ∷ []
    → (k.network_create s w).1 ≡ ok id
    → k.network_inspect (k.network_create s w).0 id
      ≡ ok (record { driver = w.driver; ipam = x ∷ [] })

module _ {S : Type 0} (t : AddressTexts) (k : NetworkClient S) (keeps : KeepsNetworks k) (c : Codec)
    (prefix driver : Str) where
  get_network-create_network :
      (s : S) (net : IpNet) (gateway id : Str)
      → ReadsBack t net gateway
      → (create_network t k c prefix driver s (some net) (some gateway)).1 ≡ ok id
      → get_network t k (create_network t k c prefix driver s (some net) (some gateway)).0 id
        ≡ ok (record { network_type = bridge; gateway = t.parse_ip (t.ip_text gateway); net = net })
  unfolding get_network create_network network_wish
  get_network-create_network s net gateway id reads made =
      let x : IpamConfig = record { subnet = t.net_text net; gateway = t.ip_text gateway } in
      ap (found_network t)
        (keeps s (network_wish t c prefix driver (some net) (some gateway)) id x refl made)
      ∙ ap
          (λ b.
            if b
            then fail invalid_ipam
            else found_net t bridge (t.ip_text gateway) (t.parse_cidr (t.net_text net)))
          reads.net_text
      ∙ ap (found_net t bridge (t.ip_text gateway)) reads.net_back

-- The entry of the pool for a network that the driver has created.
abbrev pub entry_of : Str → Str → IpNet → Allocated
entry_of id gateway net = record {
  id = id;
  network_type = bridge;
  gateway = gateway;
  net = net;
  sandbox_uid = none;
}

-- A network that the docker driver has created for a subnet and a gateway becomes an entry of the
-- pool with that id and subnet, with a gateway that prints as the one that was asked for, and with
-- no sandbox, under its own address, if nothing stands there yet. The texts of this subnet and this
-- gateway are read back as ReadsBack says, and the runtime keeps what it creates.
pub new_allocated_network-create_network :
    {S : Type 0} (t : AddressTexts) (k : NetworkClient S) (c : Codec) (prefix driver : Str)
    (n : Network S) (net : IpNet) (gateway id : Str)
    → ReadsBack t net gateway
    → KeepsNetworks k
    → (create_network t k c prefix driver n.service (some net) (some gateway)).1 ≡ ok id
    → lookup net.ip n.networks ≡ none
    → (g : Str) × (t.ip_text g ≡ t.ip_text gateway)
      × (new_allocated_network (network_service t k c prefix driver) id (record n {
        service = (create_network t k c prefix driver n.service (some net) (some gateway)).0;
      })
          ≡ (
            record n {
              service = (create_network t k c prefix driver n.service (some net) (some gateway)).0;
              networks = insert net.ip (entry_of id g net) n.networks;
            },
            ok (entry_of id g net),
          ))
unfolding new_allocated_network
new_allocated_network-create_network t k c prefix driver n net gateway id reads keeps made free =
    let v = network_service t k c prefix driver in
    let n' = record n {
      service = (create_network t k c prefix driver n.service (some net) (some gateway)).0;
    } in
    let g = t.parse_ip (t.ip_text gateway) in
    let f : Found = record { network_type = bridge; gateway = g; net = net } in
    (
      g,
      reads.ip_back,
      ap (network_found v id n') (
            get_network-create_network t k keeps c prefix driver n.service net gateway id reads
              made)
          ∙ ap (load_or_store v id f n') free,
    )
