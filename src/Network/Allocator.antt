-- ===== src/Network/Allocator.antt =====
-- app2/network/SubnetAllocator.py. The allocator keeps its base network and no other state: the
-- networks that are taken are an argument.
pub mod Laws
mod Tests
use dockermock.Prelude.{
  ℕ, Bool, true, false, List, [], ◌∷◌, Option, none, some, if◌then◌else◌, Result, ok, ◌>>=◌,
}
use dockermock.Ip.{Ipv4Network, overlaps, subnets}

pub record SubnetAllocator : Type 0 where
  pub base_network : Ipv4Network

-- SubnetAllocator(): 10.0.0.0/16
abbrev pub default_allocator : SubnetAllocator
default_allocator = record { base_network = record { network_address = 167772160; prefixlen = 16 } }

pub is_overlapping : Ipv4Network → List Ipv4Network → Bool
is_overlapping candidate [] = false
is_overlapping candidate (net ∷ allocated_networks) =
    if overlaps candidate net then true else is_overlapping candidate allocated_networks

-- The loop of `find_available_subnet`.
pub first_available : List Ipv4Network → List Ipv4Network → Option Ipv4Network
first_available [] allocated = none
first_available (candidate ∷ rest) allocated =
    if is_overlapping candidate allocated then first_available rest allocated else some candidate

unfoldable pub find_available_subnet :
    SubnetAllocator → ℕ → List Ipv4Network → Result (Option Ipv4Network)
unfolding first_available is_overlapping overlaps subnets
find_available_subnet self prefix allocated = do
  candidates ← subnets self.base_network prefix
  ok (first_available candidates allocated)

-- `str(subnet.network_address), subnet.prefixlen`; a network object is always true.
abbrev pub address_and_prefix : Option Ipv4Network → Option (ℕ × ℕ)
address_and_prefix none = none
address_and_prefix (some subnet) = some (subnet.network_address, subnet.prefixlen)

unfoldable pub allocate_subnet : SubnetAllocator → List Ipv4Network → ℕ → Result (Option (ℕ × ℕ))
allocate_subnet self allocated prefix = do
  subnet ← find_available_subnet self prefix allocated
  ok (address_and_prefix subnet)
