-- ===== src/Manager/Networks.antt =====
-- The networks of app2/JailManager_.py: `get_free_ip_for_network` and
-- `attach_network`.
pub mod Addresses
pub mod Distinct
use Prim.Native.String.{String}
use dockermock.Prelude.{
  ℕ, suc, ◌+◌, Bool, true, false, ◌&&◌, ◌||◌, not, Option, none, some, List, [], ◌∷◌, ◌++◌, map,
  if◌then◌else◌, ◌==◌, nat_eq, string_eq, is_some, Result, ok, raise, ◌>>=◌, ◌>>◌, type_error,
  stop_iteration, Exc,
}
use dockermock.Prelude.Text.{Text, text_beq}
use dockermock.Ip.{Ipv4Network, Hosts, hosts, next, ip_network}
use dockermock.Network.Allocator.{SubnetAllocator, allocate_subnet}
use dockermock.Manager.Store.{
  Container, Network, AllocatedSubnet, ContainerNetwork, Tables, Store, commit, rollback, fetchone,
  fetchall, insert_unique,
}
use dockermock.Manager.Containers.{JailManager, with_store, find_container}

abbrev pub network_named : Text → Network → Bool
network_named name n = text_beq n.name name

abbrev pub network_with_id : ℕ → Network → Bool
network_with_id i n = n.id == i

-- [row[0] for row in rows]
abbrev pub network_ids : List Network → List ℕ
network_ids [] = []
network_ids (n ∷ rows) = n.id ∷ network_ids rows

abbrev pub in_network : ℕ → ContainerNetwork → Bool
in_network i cn = cn.network_id == i

-- UNIQUE(network_id, container_id)
abbrev pub same_link : ContainerNetwork → ContainerNetwork → Bool
same_link a b = a.network_id == b.network_id && a.container_id == b.container_id

-- UNIQUE(subnet, prefix)
abbrev pub same_subnet : AllocatedSubnet → AllocatedSubnet → Bool
same_subnet a b = a.subnet == b.subnet && a.prefix == b.prefix

-- UNIQUE(name)
abbrev pub same_network_name : Network → Network → Bool
same_network_name a b = text_beq b.name a.name

abbrev pub with_networks : List Network → ℕ → Tables → Tables
with_networks rows seq t = record {
  containers = t.containers;
  networks = rows;
  allocated_subnets = t.allocated_subnets;
  container_networks = t.container_networks;
  volumes = t.volumes;
  volume_containers = t.volume_containers;
  container_seq = t.container_seq;
  network_seq = seq;
  volume_seq = t.volume_seq;
}

abbrev pub with_allocated : List AllocatedSubnet → Tables → Tables
with_allocated rows t = record {
  containers = t.containers;
  networks = t.networks;
  allocated_subnets = rows;
  container_networks = t.container_networks;
  volumes = t.volumes;
  volume_containers = t.volume_containers;
  container_seq = t.container_seq;
  network_seq = t.network_seq;
  volume_seq = t.volume_seq;
}

abbrev pub with_links : List ContainerNetwork → Tables → Tables
with_links rows t = record {
  containers = t.containers;
  networks = t.networks;
  allocated_subnets = t.allocated_subnets;
  container_networks = rows;
  volumes = t.volumes;
  volume_containers = t.volume_containers;
  container_seq = t.container_seq;
  network_seq = t.network_seq;
  volume_seq = t.volume_seq;
}

abbrev pub with_current : Tables → Store → Store
with_current t s = record { current = t; committed = s.committed }

-- str(ip) in used_ips
unfoldable pub is_used : ℕ → List (Option ℕ) → Bool
is_used ip [] = false
is_used ip (none ∷ used_ips) = is_used ip used_ips
is_used ip (some u ∷ used_ips) = if ip == u then true else is_used ip used_ips

-- The loop of `allocate_ip`.
unfoldable pub first_free : List ℕ → List (Option ℕ) → Option ℕ
first_free [] used_ips = none
first_free (ip ∷ host_iter) used_ips =
    if is_used ip used_ips then first_free host_iter used_ips else some ip

-- What follows `next(host_iter)`.
abbrev pub after_gateway : Result (ℕ × List ℕ) → List (Option ℕ) → Result (Option ℕ)
after_gateway (raise Exc.stop_iteration) used_ips = ok none
after_gateway (raise e) used_ips = raise e
after_gateway (ok (gateway, host_iter)) used_ips = ok (first_free host_iter used_ips)

unfoldable pub allocate_ip : Ipv4Network → List (Option ℕ) → Result (Option ℕ)
allocate_ip subnet used_ips = after_gateway (next (hosts subnet)) used_ips

abbrev pub used_ips : ℕ → Tables → List (Option ℕ)
used_ips network_id t =
    map (λ (cn : ContainerNetwork). cn.ip_address)
      (fetchall (in_network network_id) t.container_networks)

-- `row[0]` of a network that is not there is a TypeError.
unfoldable pub get_free_ip_for_network : ℕ → Tables → Result (Option ℕ)
get_free_ip_for_network network_id t = elim (fetchone (network_with_id network_id) t.networks) [
  | none ↦ raise type_error
  | some row ↦
      ip_network row.subnet row.prefix >>= λ subnet. allocate_ip subnet (used_ips network_id t)
]

abbrev pub link : ℕ → ℕ → Option ℕ → ContainerNetwork
link network_id container_id ip = record {
  network_id = network_id;
  container_id = container_id;
  ip_address = ip;
}

-- The last statements of `attach_network`, with the tables after the INSERT.
abbrev pub attached :
    Result (List ContainerNetwork) → JailManager → Result (Option String) × JailManager
attached (raise e) m = (ok (some "Failed to attach network"), with_store (rollback m.store) m)
attached (ok rows) m =
    (ok none, with_store (commit (with_current (with_links rows m.store.current) m.store)) m)

abbrev pub attach_ip :
    Result (Option ℕ) → ℕ → ℕ → JailManager → Result (Option String) × JailManager
attach_ip (raise e) network_id container_id m = (raise e, m)
attach_ip (ok none) network_id container_id m =
    (ok (some "Failed to get free IP Address"), with_store (rollback m.store) m)
attach_ip (ok (some ip)) network_id container_id m =
    attached
      (insert_unique same_link (link network_id container_id (some ip))
        m.store.current.container_networks)
      m

unfoldable pub attach_to : Container → Network → JailManager → Result (Option String) × JailManager
attach_to cont network m =
    if is_some
      (fetchone (same_link (link network.id cont.id none)) m.store.current.container_networks)
    then (ok (some "Network Already Present"), m)
    else attach_ip (get_free_ip_for_network network.id m.store.current) network.id cont.id m

unfoldable pub attach_network : Text → Text → JailManager → Result (Option String) × JailManager
attach_network container_name network_name m = elim (find_container container_name m) [
  | none ↦ (ok (some "No such Container"), m)
  | some cont ↦ elim (fetchone (network_named network_name) m.store.current.networks) [
    | none ↦ (ok (some "No Such Network"), m)
    | some network ↦ attach_to cont network m
  ]
]
