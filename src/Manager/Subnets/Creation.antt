-- ===== src/Manager/Subnets/Creation.antt =====
-- What `create_network` adds, and that an allocated subnet is free.
use dockermock.Prelude.{
  ◌≡◌, ◌⊎◌, refl, sym, ap, ◌∙◌, inl, inr, ℕ, ◌%◌, Bool, true, false, Option, none, some, List, [],
  ◌∷◌, ◌++◌, ◌&&◌, ◌>>=◌, map, ◌==◌, string_eq, nat_eq, arith, is_some, All, Bool-cases, Result, ok,
  raise, ok-injective, >>=-eq-ok, leb, value_error, integrity_error,
}
use dockermock.Prelude.Text.{Text}
use dockermock.Ip.{Ipv4Network, IsNetwork, ip_network, block_size}
use dockermock.Ip.Subnets.{IsSubnetOf}
use dockermock.Network.Allocator.{
  SubnetAllocator, allocate_subnet, find_available_subnet, default_allocator,
}
use dockermock.Network.Allocator.Laws.{IsFree, allocate_subnet-some, find_available_subnet-some}
use dockermock.Manager.Store.{Network, AllocatedSubnet, Tables, fetchone, insert_unique}
use dockermock.Manager.Store.Rows.{insert_cases}
use dockermock.Manager.Containers.{JailManager, with_store}
use dockermock.Manager.Networks.{
  network_named, same_subnet, same_network_name, with_current, with_allocated,
}
use dockermock.Manager.Subnets.{
  SubnetArg, no_subnet, created, allocated_networks, get_allocated_networks, choose_subnet,
  create_network, create_with, add_rows, add_network_row, new_network, unpacked,
}

-- The network of a row.
abbrev pub network_of : AllocatedSubnet → Ipv4Network
network_of row = record { network_address = row.subnet; prefixlen = row.prefix }

-- The rows of the table as networks.
abbrev pub networks_of : List AllocatedSubnet → List Ipv4Network
networks_of rows = map network_of rows

-- What `ip_network` has checked, but for the bound on the address that its text has.
pub ip_network-valid :
    (a p : ℕ)
    → (leb p 32 && (a % block_size p == 0)) ≡ true
    → ip_network a p ≡ ok (record { network_address = a; prefixlen = p })
unfolding ip_network
ip_network-valid a p valid = rw valid

ip_network-refused :
    (a p : ℕ) → (leb p 32 && (a % block_size p == 0)) ≡ false → ip_network a p ≡ raise value_error
unfolding ip_network
ip_network-refused a p refused = rw refused

ip_network-ok :
    (a p : ℕ) (n : Ipv4Network)
    → ip_network a p ≡ ok n
    → n ≡ record { network_address = a; prefixlen = p }
ip_network-ok a p n e = elim (Bool-cases (leb p 32 && (a % block_size p == 0))) [
  | inl valid ↦ ok-injective (sym e ∙ ip_network-valid a p valid)
  | inr refused ↦ absurd (let e' = ip_network-refused a p refused in cc)
]

allocated_networks-ok :
    (rows : List AllocatedSubnet) (nets : List Ipv4Network)
    → allocated_networks rows ≡ ok nets
    → nets ≡ networks_of rows
unfolding allocated_networks
allocated_networks-ok [] nets e = sym (ok-injective e)
allocated_networks-ok (row ∷ rows) nets e =
    let (n, parsed, e') = >>=-eq-ok (ip_network row.subnet row.prefix) _ e in
    let (rest, listed, e'') = >>=-eq-ok (allocated_networks rows) _ e' in
    rw (
      ← ok-injective e'',
      ip_network-ok row.subnet row.prefix n parsed,
      allocated_networks-ok rows rest listed,
    )

-- What has been added where the result says that the network was created.
record IsAdded (s p s' p' : ℕ) (rows : List AllocatedSubnet) (m : JailManager) : Type 0 where
  same_subnet_given : s ≡ s'
  same_prefix_given : p ≡ p'
  rows_now : m.store.current.allocated_subnets ≡ rows

add_network_row-created :
    (r : Result (List Network)) (name name' : Text) (s p s' p' : ℕ) (m : JailManager)
    → (add_network_row r name s p m).0 ≡ created name' s' p'
    → IsAdded s p s' p' m.store.current.allocated_subnets (add_network_row r name s p m).1
add_network_row-created (raise x) name name' s p s' p' m e = absurd cc
add_network_row-created (ok rows) name name' s p s' p' m e = record {
  same_subnet_given = cc;
  same_prefix_given = cc;
  rows_now = refl;
}

abbrev row_of : ℕ → ℕ → AllocatedSubnet
row_of s p = record { subnet = s; prefix = p }

add_rows-created :
    (r : Result (List AllocatedSubnet)) (rows : List AllocatedSubnet) (name name' : Text)
    (s p s' p' : ℕ) (m : JailManager)
    → (r ≡ raise integrity_error) ⊎ (r ≡ ok rows)
    → (add_rows r name s p m).0 ≡ created name' s' p'
    → IsAdded s p s' p' rows (add_rows r name s p m).1
add_rows-created (raise x) rows name name' s p s' p' m c e = absurd cc
add_rows-created (ok rows') rows name name' s p s' p' m (inl refused) e = absurd cc
add_rows-created (ok rows') rows name name' s p s' p' m (inr added) e =
    let m' = with_store (with_current (with_allocated rows' m.store.current) m.store) m in
    let now =
      add_network_row-created
        (insert_unique same_network_name (new_network name s p m'.store.current)
          m'.store.current.networks)
        name name' s p s' p' m' e in
    record {
      same_subnet_given = now.same_subnet_given;
      same_prefix_given = now.same_prefix_given;
      rows_now = now.rows_now ∙ ok-injective added;
    }

create_with-created :
    (r : Result (Option (ℕ × ℕ))) (name name' : Text) (s p : ℕ) (m : JailManager)
    → (create_with r name m).0 ≡ ok (created name' s p)
    → (r ≡ ok (some (s, p)))
      × ((create_with r name m).1.store.current.allocated_subnets
          ≡ m.store.current.allocated_subnets ++ row_of s p ∷ [])
create_with-created (raise x) name name' s p m e = absurd cc
create_with-created (ok none) name name' s p m e = absurd cc
create_with-created (ok (some (s', p'))) name name' s p m e =
    let row = row_of s' p' in
    let rows = m.store.current.allocated_subnets in
    let added =
      add_rows-created (insert_unique same_subnet row rows) (rows ++ row ∷ []) name name' s' p' s p
        m (insert_cases same_subnet row rows) (ok-injective e) in
    (
      rw (added.same_subnet_given, added.same_prefix_given),
      added.rows_now ∙ rw (added.same_subnet_given, added.same_prefix_given),
    )

create_network-created :
    (name name' : Text) (arg : SubnetArg) (g : Bool) (s p : ℕ) (m : JailManager)
    → (create_network name arg g m).0 ≡ ok (created name' s p)
    → (choose_subnet arg g m.subnetallocator m.store.current ≡ ok (some (s, p)))
      × ((create_network name arg g m).1.store.current.allocated_subnets
          ≡ m.store.current.allocated_subnets ++ row_of s p ∷ [])
unfolding create_network
create_network-created name name' arg g s p m e =
    elim (Bool-cases (is_some (fetchone (network_named name) m.store.current.networks))) [
      | inl there ↦ absurd (let e' = rw (create_network, there) at e in cc)
      | inr fresh ↦
          rw (create_network, fresh)
            (create_with-created (choose_subnet arg g m.subnetallocator m.store.current) name name'
              s p m (rw (create_network, fresh) at e))
    ]

unpacked-ok :
    (found : Option (ℕ × ℕ)) (pair : ℕ × ℕ)
    → (unpacked found >>= λ q. ok (some q)) ≡ ok (some pair)
    → found ≡ some pair
unpacked-ok none pair e = absurd cc
unpacked-ok (some q) pair e = ok-injective e

choose_subnet-free :
    (g : Bool) (allocator : SubnetAllocator) (t : Tables) (s p : ℕ)
    → choose_subnet no_subnet g allocator t ≡ ok (some (s, p))
    → find_available_subnet allocator 24 (networks_of t.allocated_subnets)
      ≡ ok (some (network_of (row_of s p)))
unfolding choose_subnet get_allocated_networks
choose_subnet-free g allocator t s p e =
    let (nets, listed, e1) = >>=-eq-ok (allocated_networks t.allocated_subnets) _ e in
    let (found, allocated, e2) = >>=-eq-ok (allocate_subnet allocator nets 24) _ e1 in
    rw (← allocated_networks-ok t.allocated_subnets nets listed)
      (allocate_subnet-some allocator nets 24 s p (allocated ∙ ap ok (unpacked-ok found (s, p) e2)))

-- For valid allocated networks and the default allocator: a network that `create_network` makes
-- without a given subnet is a /24 of 10.0.0.0/16 that shares no address with a network allocated
-- before, and its row is added to the allocated subnets.
pub create_network-IsFree :
    (name name' : Text) (g : Bool) (s p : ℕ) (m : JailManager)
    → m.subnetallocator ≡ default_allocator
    → All IsNetwork (networks_of m.store.current.allocated_subnets)
    → (create_network name no_subnet g m).0 ≡ ok (created name' s p)
    → IsSubnetOf default_allocator.base_network 24 (network_of (row_of s p))
      × IsFree (networks_of m.store.current.allocated_subnets) (network_of (row_of s p))
      × ((create_network name no_subnet g m).1.store.current.allocated_subnets
          ≡ m.store.current.allocated_subnets ++ row_of s p ∷ [])
create_network-IsFree name name' g s p m default nets e =
    let (chosen, rows) = create_network-created name name' no_subnet g s p m e in
    let found = choose_subnet-free g m.subnetallocator m.store.current s p chosen in
    let base : IsNetwork m.subnetallocator.base_network = rw default (omega arith) in
    let (inside, free, _) =
      find_available_subnet-some m.subnetallocator 24
        (networks_of m.store.current.allocated_subnets) base (rw default (omega arith))
        (rw default (omega arith)) (omega arith) nets (network_of (row_of s p)) found in
    (rw default at inside, free, rows)
