-- ===== src/Network/Allocator/Tests.antt =====
-- Runs of the allocator on small networks.
use dockermock.Prelude.{ℕ, ◌<◌, ◌≡◌, refl, List, [], ◌∷◌, some, none, ok, All, arith}
use dockermock.Ip.{Ipv4Network, IsNetwork}
use dockermock.Ip.Subnets.{IsSubnetOf}
use dockermock.Network.Allocator.{
  SubnetAllocator, find_available_subnet, allocate_subnet, default_allocator,
}
use dockermock.Network.Allocator.Laws.{
  IsFree, IsTaken, find_available_subnet-some, find_available_subnet-none,
}

-- 10.0.0.0/24, with 10.0.0.0/26 and 10.0.0.96/27 taken
abbrev small : SubnetAllocator
small = record { base_network = record { network_address = 167772160; prefixlen = 24 } }

abbrev net : ℕ → ℕ → Ipv4Network
net a p = record { network_address = a; prefixlen = p }

abbrev taken : List Ipv4Network
taken = net 167772160 26 ∷ net 167772256 27 ∷ []

small_run : find_available_subnet small 26 taken ≡ ok (some (net 167772288 26))
unfolding find_available_subnet
small_run = refl

full_run : find_available_subnet small 24 taken ≡ ok none
unfolding find_available_subnet
full_run = refl

default_run :
    allocate_subnet default_allocator (net 167772160 24 ∷ []) 24 ≡ ok (some (167772416, 24))
unfolding allocate_subnet find_available_subnet
default_run = refl

taken-IsNetwork : All IsNetwork taken
taken-IsNetwork = omega arith

find_available_subnet-some_example :
    IsSubnetOf small.base_network 26 (net 167772288 26)
    × IsFree taken (net 167772288 26)
    × ((d : Ipv4Network)
        → IsSubnetOf small.base_network 26 d
        → d.network_address < 167772288
        → IsTaken taken d)
find_available_subnet-some_example =
    find_available_subnet-some small 26 taken (omega arith) (omega arith) (omega arith)
      (omega arith) taken-IsNetwork (net 167772288 26) small_run

whole-IsSubnetOf : IsSubnetOf small.base_network 24 (net 167772160 24)
whole-IsSubnetOf = omega arith

find_available_subnet-none_example : IsTaken taken (net 167772160 24)
find_available_subnet-none_example =
    find_available_subnet-none small 24 taken (omega arith) (omega arith) (omega arith)
      (omega arith) taken-IsNetwork full_run (net 167772160 24) whole-IsSubnetOf
