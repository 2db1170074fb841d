-- ===== src/Ip.antt =====
-- The part of Python's `ipaddress` module that the program uses, on IPv4. An address is a number
-- below 2 ^ 32; a network is its address and its prefix length.
pub mod Laws
pub mod Subnets
pub mod Text
use dockermock.Prelude.{
  ℕ, zero, suc, ◌+◌, ◌-◌, ◌*◌, ◌/◌, ◌%◌, ◌^◌, ◌≤◌, ◌≡◌, Bool, ◌||◌, List, [], ◌∷◌, map, ltb, leb,
  ◌&&◌, ◌==◌, nat_eq, if◌then◌else◌, Result, ok, raise, type_error, stop_iteration, value_error,
}

pub record Ipv4Network : Type 0 where
  pub network_address : ℕ
  pub prefixlen : ℕ

-- int(hostmask) + 1: the number of addresses of a network
abbrev pub block_size : ℕ → ℕ
block_size prefixlen = 2 ^ (32 - prefixlen)

abbrev pub broadcast_address : Ipv4Network → ℕ
broadcast_address n = n.network_address + block_size n.prefixlen - 1

-- ip & netmask
abbrev pub masked : ℕ → ℕ → ℕ
masked prefixlen ip = ip / block_size prefixlen * block_size prefixlen

-- `ip in n`
unfoldable pub contains : Ipv4Network → ℕ → Bool
contains n ip = masked n.prefixlen ip == n.network_address

unfoldable pub overlaps : Ipv4Network → Ipv4Network → Bool
unfolding contains
overlaps a b =
    contains b a.network_address
    || (contains b (broadcast_address a)
        || (contains a b.network_address || contains a (broadcast_address b)))

-- range(start, start + count * step, step)
unfoldable pub range : ℕ → ℕ → ℕ → List ℕ
range start step zero = []
range start step (suc count) = start ∷ range (start + step) step count

-- n.subnets(new_prefix=p). The generator raises at the first `next`, which every loop makes.
unfoldable pub subnets : Ipv4Network → ℕ → Result (List Ipv4Network)
unfolding range
subnets n p =
    if n.prefixlen == 32
    then ok (n ∷ [])
    else if ltb p n.prefixlen
    then raise value_error
    else if ltb 32 p
    then raise value_error
    else ok (
        map (λ a. record { network_address = a; prefixlen = p })
          (range n.network_address (block_size p) (2 ^ (p - n.prefixlen))))

-- n.hosts(): an iterator, but a list where the prefix length is 32.
pub data Hosts : Type 0 where
  iterator : List ℕ → Hosts
  plain_list : List ℕ → Hosts

unfoldable pub hosts : Ipv4Network → Hosts
unfolding range
hosts n =
    if n.prefixlen == 32
    then plain_list (n.network_address ∷ [])
    else if n.prefixlen == 31
    then iterator (range n.network_address 1 2)
    else iterator (range (n.network_address + 1) 1 (block_size n.prefixlen - 2))

-- next(h): the value and what is left
unfoldable pub next : Hosts → Result (ℕ × List ℕ)
next (iterator []) = raise stop_iteration
next (iterator (a ∷ rest)) = ok (a, rest)
next (plain_list l) = raise type_error

-- ipaddress.ip_network of an address and a prefix length: bits beyond the prefix are refused.
unfoldable pub ip_network : ℕ → ℕ → Result Ipv4Network
ip_network address prefixlen =
    if leb prefixlen 32 && (address % block_size prefixlen == 0)
    then ok (record { network_address = address; prefixlen = prefixlen })
    else raise value_error

-- What `ipaddress.ip_network` has checked of a network that it returns.
pub record IsNetwork (n : Ipv4Network) : Type 0 where
  pub short : n.prefixlen ≤ 32
  pub aligned : n.network_address % block_size n.prefixlen ≡ 0
  pub bounded : n.network_address + block_size n.prefixlen ≤ 2 ^ 32
