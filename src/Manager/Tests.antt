-- ===== src/Manager/Tests.antt =====
-- Runs of the manager on a small database, and its theorems there.
use mathlib.Core.List.{Memᴰ}
use dockermock.Prelude.{
  ◌≡◌, ◌↔◌, refl, ℕ, ◌<◌, ◌≤◌, true, false, Option, none, some, List, [], ◌∷◌, ◌++◌, arith, ok,
  raise, type_error, All,
}
use dockermock.Prelude.Text.{codes, Text, text_beq}
use dockermock.Prelude.Utf8.{encode}
use dockermock.Ip.{Ipv4Network, IsNetwork, broadcast_address, ip_network, hosts, next, range}
use dockermock.Ip.Subnets.{IsSubnetOf}
use dockermock.Network.Allocator.{default_allocator, allocate_subnet, find_available_subnet}
use dockermock.Network.Allocator.Laws.{IsFree, IsTaken}
use dockermock.Manager.Store.{Container, Tables, fetchone, fetchall, insert_unique}
use dockermock.Manager.Containers.{JailManager, connected, start_jail, status_jail, find_container}
use dockermock.Manager.Containers.Status.{start_jail-status}
use dockermock.Manager.Networks.{
  allocate_ip, attach_network, attach_to, link, get_free_ip_for_network, is_used, first_free,
  with_allocated,
}
use dockermock.Manager.Networks.Addresses.{allocate_ip-some, allocate_ip-none}
use dockermock.Manager.Networks.Distinct.{
  IsAddressed, IsAddressedIn, IsNumbered, IsDistinct, HasDistinctAddresses,
  attach_network-IsAddressed,
}
use dockermock.Manager.Subnets.{
  create_network, no_subnet, valid_subnet, created, get_allocated_networks, allocated_networks,
  choose_subnet,
}
use dockermock.Manager.Subnets.Creation.{networks_of, create_network-IsFree}
use dockermock.Manager.Subnets.Exhausted.{create_network-exhausted}

abbrev container : ℕ → Text → Container
container i name = record {
  id = i;
  name = name;
  image_id = 1;
  status = "created";
  config_json = codes "{}";
  gid = codes "0a";
}

-- Two containers, of which `web` is in the network `a`, 10.0.0.0/24.
abbrev tables : Tables
tables = record {
  containers = container 1 (codes "web") ∷ container 2 (codes "db") ∷ [];
  networks =
      record { id = 1; name = codes "a"; driver = "bridge"; subnet = 167772160; prefix = 24 } ∷ [];
  allocated_subnets = record { subnet = 167772160; prefix = 24 } ∷ [];
  container_networks = link 1 1 (some 167772162) ∷ [];
  volumes = [];
  volume_containers = [];
  container_seq = 2;
  network_seq = 1;
  volume_seq = 0;
}

abbrev manager : JailManager
manager = record {
  store = record { current = tables; committed = tables };
  subnetallocator = default_allocator;
  worker = connected [];
}

start_run :
    ((start_jail (codes "web") manager).0 ≡ ok "running")
    × ((start_jail (codes "web") manager).1.worker ≡ connected (encode (codes "web\n")))
    × ((start_jail (codes "mail") manager).0 ≡ ok "NOJAIL")
unfolding start_jail fetchone
start_run = (refl, refl, refl)

-- The next container of `a` gets 10.0.0.3.
attach_run :
    ((attach_network (codes "db") (codes "a") manager).0 ≡ ok none)
    × ((attach_network (codes "db") (codes "a") manager).1.store.current.container_networks
        ≡ link 1 1 (some 167772162) ∷ link 1 2 (some 167772163) ∷ [])
    × ((attach_network (codes "web") (codes "a") manager).0 ≡ ok (some "Network Already Present"))
unfolding attach_network attach_to get_free_ip_for_network allocate_ip ip_network hosts next range
    first_free is_used fetchone fetchall insert_unique
attach_run = (refl, refl, refl)

-- A network that is given with a subnet is only compared for equality: 10.0.0.0/16 is added beside
-- 10.0.0.0/24.
overlap_run :
    (create_network
      (codes "b")
      (valid_subnet (record { network_address = 167772160; prefixlen = 16 }))
      true
      manager).0
    ≡ ok (created (codes "b") 167772160 16)
unfolding create_network choose_subnet fetchone insert_unique
overlap_run = refl

abbrev web : Container
web = container 1 (codes "web")

web_found : find_container (codes "web") manager ≡ some web
unfolding fetchone
web_found = refl

start_jail-status_example :
    ((start_jail (codes "web") manager).0 ≡ ok "running")
    × ((start_jail (codes "web") manager).1.worker ≡ connected (encode (codes "web\n")))
    × (status_jail (codes "web") (start_jail (codes "web") manager).1 ≡ "running")
start_jail-status_example = start_jail-status manager (codes "web") web [] web_found refl refl

-- 10.0.0.0/29, with 10.0.0.2 used
abbrev tiny : Ipv4Network
tiny = record { network_address = 167772160; prefixlen = 29 }

tiny_run : allocate_ip tiny (some 167772162 ∷ []) ≡ ok (some 167772163)
unfolding allocate_ip hosts next range first_free is_used
tiny_run = refl

allocate_ip-some_example :
    (167772162 ≤ 167772163)
    × (167772163 < broadcast_address tiny)
    × (¬ Memᴰ {A = Option ℕ} (some 167772163) (some 167772162 ∷ []))
allocate_ip-some_example =
    allocate_ip-some tiny (some 167772162 ∷ []) 167772163 (omega arith) tiny_run

abbrev all_used : List (Option ℕ)
all_used = some 167772162 ∷ some 167772163 ∷ some 167772164 ∷ some 167772165 ∷ some 167772166 ∷ []

full_run : allocate_ip tiny all_used ≡ ok none
unfolding allocate_ip hosts next range first_free is_used
full_run = refl

allocate_ip-none_example : Memᴰ (some 167772164) all_used
allocate_ip-none_example =
    allocate_ip-none tiny all_used 167772164 (omega arith) full_run (omega arith) (omega arith)

manager-IsAddressed : IsAddressed manager.store
unfolding IsAddressed IsAddressedIn HasDistinctAddresses IsNumbered IsDistinct
manager-IsAddressed = omega arith

attach_network-IsAddressed_example :
    IsAddressed (attach_network (codes "db") (codes "a") manager).1.store
attach_network-IsAddressed_example =
    attach_network-IsAddressed (codes "db") (codes "a") manager manager-IsAddressed

create_run :
    (create_network (codes "b") no_subnet false manager).0 ≡ ok (created (codes "b") 167772416 24)
unfolding create_network choose_subnet get_allocated_networks allocated_networks ip_network
    allocate_subnet find_available_subnet fetchone insert_unique
create_run = refl

allocated-IsNetwork : All IsNetwork (networks_of tables.allocated_subnets)
allocated-IsNetwork = omega arith

create_network-IsFree_example :
    IsSubnetOf default_allocator.base_network 24
      (record { network_address = 167772416; prefixlen = 24 })
    × IsFree
        (networks_of tables.allocated_subnets)
        (record { network_address = 167772416; prefixlen = 24 })
    × ((create_network (codes "b") no_subnet false manager).1.store.current.allocated_subnets
        ≡ tables.allocated_subnets ++ record { subnet = 167772416; prefix = 24 } ∷ [])
create_network-IsFree_example =
    create_network-IsFree (codes "b") (codes "b") false 167772416 24 manager refl
      allocated-IsNetwork create_run

-- A manager whose base network is taken as a whole.
abbrev full_tables : Tables
full_tables = with_allocated (record { subnet = 167772160; prefix = 16 } ∷ []) tables

abbrev full_manager : JailManager
full_manager = record {
  store = record { current = full_tables; committed = full_tables };
  subnetallocator = default_allocator;
  worker = manager.worker;
}

full-IsNetwork : All IsNetwork (networks_of full_tables.allocated_subnets)
full-IsNetwork = omega arith

b_is_new : fetchone (λ n. text_beq n.name (codes "b")) tables.networks ≡ none
unfolding fetchone
b_is_new = refl

create_network-exhausted_example :
    (create_network (codes "b") no_subnet false full_manager ≡ (raise type_error, full_manager)) ↔ (
      (d : Ipv4Network)
      → IsSubnetOf default_allocator.base_network 24 d
      → IsTaken (networks_of full_tables.allocated_subnets) d)
create_network-exhausted_example =
    create_network-exhausted (codes "b") false full_manager b_is_new refl full-IsNetwork
