-- ===== src/Network/Tests.antt =====
-- The pool of networks on a concrete service.
use nanokube.Prelude.{
  ℕ, suc, ◌≡◌, refl, ap, ◌≢◌, true, false, Option, none, some, [], ◌∷◌, map, arith, Str, str, same,
  lookup, insert, ok,
}
use nanokube.Network.Address.{subnet_mask, advance, mask_subnet}
use nanokube.Network.Address.Arithmetic.{value}
use nanokube.Network.Pool.{
  Service, Allocated, Network, default, from_config, make_default, claim, allocate,
  with_sandbox_uid, reclaimable, new_allocated_network, deallocate,
}
use nanokube.Network.Pool.Keys.{IsKeyed}
use nanokube.Network.Pool.Reuse.{Reuses, from_config-deallocate}
use nanokube.Network.Pool.Exclusive.{Hands, from_config_exclusive}

advance_run : advance (10 ∷ 1 ∷ 255 ∷ 250 ∷ []) 16 ≡ 10 ∷ 2 ∷ 0 ∷ 10 ∷ []
unfolding advance
advance_run = refl

-- A runtime that numbers the networks it makes and keeps where the last one lies; it chooses
-- 10.0.0.16 where nothing is asked.
abbrev served : Service (ℕ × Str)
served = record {
  create_network = λ s want gateway. elim want [
    | none ↦ ((suc s.0, 10 ∷ 0 ∷ 0 ∷ 16 ∷ []), ok (suc s.0 ∷ []))
    | some net ↦ ((suc s.0, net.ip), ok (suc s.0 ∷ []))
  ];
  get_network = λ s id. ok (record {
    network_type = str "nanokube";
    gateway = s.1;
    net = record { ip = s.1; mask = subnet_mask };
  });
  remove_network = λ s id. (s, none);
}

abbrev empty : Network (ℕ × Str)
empty = record {
  default_done = false;
  default_net = none;
  networks = [];
  next_ip = [];
  service = (0, []);
  cancelled = false;
}

abbrev given : Allocated
given = record {
  id = 3 ∷ [];
  network_type = str "nanokube";
  gateway = 10 ∷ 0 ∷ 0 ∷ 32 ∷ [];
  net = record { ip = 10 ∷ 0 ∷ 0 ∷ 32 ∷ []; mask = subnet_mask };
  sandbox_uid = none;
}

-- the first sandbox gets a new network, and so the second
first_run :
    map (λ e. e.1.sandbox_uid) (from_config served (str "one") false empty).0.networks
    ≡ none ∷ some (str "one") ∷ []
unfolding from_config default make_default claim allocate with_sandbox_uid reclaimable
    new_allocated_network lookup insert advance
first_run = refl

from_config_example_given :
    IsKeyed empty.networks × ((from_config served (str "one") false empty).1 ≡ ok (some given))
unfolding from_config default claim allocate make_default new_allocated_network lookup reclaimable
    insert advance with_sandbox_uid
from_config_example_given = (tt, refl)

from_config_exclusive_example :
    Hands
      (str "one")
      given
      (default served empty).0.networks
      (from_config served (str "one") false empty).0.networks
from_config_exclusive_example =
    from_config_exclusive served (str "one") empty from_config_example_given.0
      from_config_example_given.1

-- A pool with the default network and one that a sandbox has.
abbrev at : Str → Str → Option Str → Allocated
at id ip uid = record {
  id = id;
  network_type = str "nanokube";
  gateway = ip;
  net = record { ip = ip; mask = subnet_mask };
  sandbox_uid = uid;
}

abbrev held : Allocated
held = at (str "b") (10 ∷ 0 ∷ 0 ∷ 32 ∷ []) (some (str "one"))

abbrev in_use : Network (ℕ × Str)
in_use = record {
  default_done = true;
  default_net = some (at (str "a") (10 ∷ 0 ∷ 0 ∷ 16 ∷ []) none);
  networks =
      (10 ∷ 0 ∷ 0 ∷ 16 ∷ [], at (str "a") (10 ∷ 0 ∷ 0 ∷ 16 ∷ []) none)
      ∷ (10 ∷ 0 ∷ 0 ∷ 32 ∷ [], held)
      ∷ [];
  next_ip = 10 ∷ 0 ∷ 0 ∷ 48 ∷ [];
  service = (2, []);
  cancelled = false;
}

in_use-IsKeyed :
    IsKeyed in_use.networks × (lookup held.net.ip in_use.networks ≡ some held) × (held.id ≢ str "a")
unfolding lookup same value
in_use-IsKeyed =
    ((refl, refl, (refl, refl, tt)), refl, λ e. absurd (omega (arith, ap (λ (t : Str). value t) e)))

from_config-deallocate_example :
    ((deallocate held in_use.networks).0 ≡ true)
    × Reuses served
        (str "two")
        (record in_use { networks = (deallocate held in_use.networks).1 })
        (from_config served
          (str "two")
          false
          (record in_use { networks = (deallocate held in_use.networks).1 }))
from_config-deallocate_example =
    from_config-deallocate served (str "two") in_use held refl refl in_use-IsKeyed.0
      in_use-IsKeyed.1 in_use-IsKeyed.2

masked : mask_subnet (10 ∷ 0 ∷ 0 ∷ 37 ∷ []) ≡ held.net.ip
unfolding mask_subnet
masked = refl
