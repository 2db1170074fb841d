-- ===== src/Manager/Subnets.antt =====
-- The subnets of app2/JailManager_.py: `create_network`, with `_get_allocated_networks`. The text of
-- a subnet is an argument as what `ipaddress.ip_network` makes of it, for IPv4. The keyword
-- `prefix`, which the server passes, is not read by the code.
pub mod Creation
pub mod Exhausted
use Prim.Native.String.{String}
use dockermock.Prelude.{
  ℕ, suc, ◌+◌, Bool, true, false, ◌&&◌, ◌||◌, not, Option, none, some, List, [], ◌∷◌, ◌++◌, map,
  if◌then◌else◌, ◌==◌, nat_eq, string_eq, is_some, Result, ok, raise, ◌>>=◌, ◌>>◌, type_error,
  stop_iteration, Exc,
}
use dockermock.Prelude.Text.{Text, text_beq}
use dockermock.Ip.{Ipv4Network, Hosts, hosts, next, ip_network}
use dockermock.Network.Allocator.{SubnetAllocator, allocate_subnet}
use dockermock.Manager.Store.{
  Network, AllocatedSubnet, Tables, Store, commit, rollback, fetchone, insert_unique,
}
use dockermock.Manager.Containers.{JailManager, with_store}
use dockermock.Manager.Networks.{
  network_named, same_subnet, same_network_name, with_networks, with_allocated, with_current,
}

-- kwargs.get('subnet'): missing or empty, a text that `ip_network` refuses, or a network
pub data SubnetArg : Type 0 where
  no_subnet invalid_subnet : SubnetArg
  valid_subnet : Ipv4Network → SubnetArg

-- What `create_network` returns: the name and the subnet of the network, or the error.
pub data Created : Type 0 where
  created : Text → ℕ → ℕ → Created
  failed : String → Created

unfoldable pub allocated_networks : List AllocatedSubnet → Result (List Ipv4Network)
allocated_networks [] = ok []
allocated_networks (row ∷ rows) = do
  n ← ip_network row.subnet row.prefix
  rest ← allocated_networks rows
  ok (n ∷ rest)

unfoldable pub get_allocated_networks : Tables → Result (List Ipv4Network)
get_allocated_networks t = allocated_networks t.allocated_subnets

-- gateway = kwargs.get('gateway') or str(next(parsed_net.hosts())); it is not used further.
abbrev pub first_host : Bool → Ipv4Network → Result (Unit {0})
first_host true n = ok tt
first_host false n = do gateway ← next (hosts n); ok tt

-- `subnet, prefix = None` is a TypeError.
abbrev pub unpacked : Option (ℕ × ℕ) → Result (ℕ × ℕ)
unpacked none = raise type_error
unpacked (some pair) = ok pair

-- The subnet and the prefix of the new network; none for 'Invalid Subnet'.
unfoldable pub choose_subnet : SubnetArg → Bool → SubnetAllocator → Tables → Result (Option (ℕ × ℕ))
choose_subnet invalid_subnet has_gateway allocator t = ok none
choose_subnet (valid_subnet n) has_gateway allocator t = do
  gateway ← first_host has_gateway n
  ok (some (n.network_address, n.prefixlen))
choose_subnet no_subnet has_gateway allocator t = do
  allocated ← get_allocated_networks t
  found ← allocate_subnet allocator allocated 24
  pair ← unpacked found
  ok (some pair)

abbrev pub new_network : Text → ℕ → ℕ → Tables → Network
new_network name subnet prefix t = record {
  id = suc t.network_seq;
  name = name;
  driver = "bridge";
  subnet = subnet;
  prefix = prefix;
}

-- The second INSERT and the commit. An error leaves the first INSERT in the open transaction.
abbrev pub add_network_row :
    Result (List Network) → Text → ℕ → ℕ → JailManager → Created × JailManager
add_network_row (raise e) name subnet prefix m = (failed "Failed to create network", m)
add_network_row (ok rows) name subnet prefix m = (
  created name subnet prefix,
  with_store
      (commit (
        with_current (with_networks rows (suc m.store.current.network_seq) m.store.current)
          m.store))
      m,
)

-- The first INSERT.
abbrev pub add_rows :
    Result (List AllocatedSubnet) → Text → ℕ → ℕ → JailManager → Created × JailManager
add_rows (raise e) name subnet prefix m = (failed "Failed to create network", m)
add_rows (ok rows) name subnet prefix m =
    let m' = with_store (with_current (with_allocated rows m.store.current) m.store) m in
    add_network_row
      (insert_unique same_network_name (new_network name subnet prefix m'.store.current)
        m'.store.current.networks)
      name subnet prefix m'

abbrev pub create_with : Result (Option (ℕ × ℕ)) → Text → JailManager → Result Created × JailManager
create_with (raise e) name m = (raise e, m)
create_with (ok none) name m = (ok (failed "Invalid Subnet"), m)
create_with (ok (some (subnet, prefix))) name m =
    let (result, m') =
      add_rows
        (insert_unique same_subnet (record { subnet = subnet; prefix = prefix })
          m.store.current.allocated_subnets)
        name subnet prefix m in
    (ok result, m')

unfoldable pub create_network : Text → SubnetArg → Bool → JailManager → Result Created × JailManager
create_network name subnet has_gateway m =
    if is_some (fetchone (network_named name) m.store.current.networks)
    then (ok (failed "already exists"), m)
    else create_with (choose_subnet subnet has_gateway m.subnetallocator m.store.current) name m
