-- ===== src/Manager/Subnets/Exhausted.antt =====
-- When `create_network` without a given subnet finds none.
use dockermock.Prelude.{
  ◌≡◌, ◌↔◌, refl, ap, ◌∙◌, inl, inr, ◌%◌, Bool, true, none, some, List, [], ◌∷◌, ◌&&◌, ◌==◌, nat_eq,
  leb, arith, All, Option-cases, ok, raise, type_error,
}
use dockermock.Prelude.Text.{Text}
use dockermock.Ip.{Ipv4Network, IsNetwork, block_size}
use dockermock.Ip.Subnets.{IsSubnetOf, candidates}
use dockermock.Network.Allocator.{
  allocate_subnet, find_available_subnet, first_available, default_allocator,
}
use dockermock.Network.Allocator.Laws.{
  IsTaken, find-eq-first, find_available_subnet-some, find_available_subnet-none,
  allocate_subnet-none,
}
use dockermock.Manager.Store.{AllocatedSubnet, fetchone}
use dockermock.Manager.Containers.{JailManager}
use dockermock.Manager.Networks.{network_named}
use dockermock.Manager.Subnets.{
  no_subnet, allocated_networks, get_allocated_networks, choose_subnet, create_network,
}
use dockermock.Manager.Subnets.Creation.{networks_of, ip_network-valid}

-- The rows that are networks are read as such.
allocated_networks-valid :
    (rows : List AllocatedSubnet)
    → All IsNetwork (networks_of rows)
    → allocated_networks rows ≡ ok (networks_of rows)
unfolding allocated_networks
allocated_networks-valid [] h = refl
allocated_networks-valid (row ∷ rows) h =
    let valid : (leb row.prefix 32 && (row.subnet % block_size row.prefix == 0)) ≡ true =
      ground (arith, h.0.short, h.0.aligned) in
    rw (
      allocated_networks,
      ip_network-valid row.subnet row.prefix valid,
      allocated_networks-valid rows h.1,
    )

module _ (g : Bool) (name : Text) (nets : List Ipv4Network) (m : JailManager)
    (fresh : fetchone (network_named name) m.store.current.networks ≡ none)
    (listed : get_allocated_networks m.store.current ≡ ok nets) where
  create_network-none :
      find_available_subnet m.subnetallocator 24 nets ≡ ok none
      → create_network name no_subnet g m ≡ (raise type_error, m)
  unfolding create_network choose_subnet
  create_network-none full = rw (
    create_network,
    fresh,
    choose_subnet,
    listed,
    allocate_subnet-none m.subnetallocator nets 24 full,
  )

  -- A subnet that is found is tried: no exception is raised.
  create_network-some :
      (c : Ipv4Network)
      → find_available_subnet m.subnetallocator 24 nets ≡ ok (some c)
      → ¬ ((create_network name no_subnet g m).0 ≡ raise type_error)
  unfolding create_network choose_subnet allocate_subnet
  create_network-some c found e =
      let e' = rw (create_network, fresh, choose_subnet, listed, allocate_subnet, found) at e in cc

-- For a name that is new, valid allocated networks and the default allocator: `create_network` without
-- a given subnet raises a TypeError and changes nothing exactly when every /24 of 10.0.0.0/16 shares
-- an address with an allocated network.
pub create_network-exhausted :
    (name : Text) (g : Bool) (m : JailManager)
    → fetchone (network_named name) m.store.current.networks ≡ none
    → m.subnetallocator ≡ default_allocator
    → All IsNetwork (networks_of m.store.current.allocated_subnets)
    → (create_network name no_subnet g m ≡ (raise type_error, m)) ↔ (
        (d : Ipv4Network)
        → IsSubnetOf default_allocator.base_network 24 d
        → IsTaken (networks_of m.store.current.allocated_subnets) d)
create_network-exhausted name g m fresh default nets =
    let self = m.subnetallocator in
    let rows = networks_of m.store.current.allocated_subnets in
    let base : IsNetwork self.base_network = rw default (omega arith) in
    let listed : get_allocated_networks m.store.current ≡ ok rows =
      unfold get_allocated_networks in
      allocated_networks-valid m.store.current.allocated_subnets nets in
    let found =
      find-eq-first self 24 rows base (rw default (omega arith)) (rw default (omega arith))
        (omega arith) nets in
    elim (Option-cases (first_available (candidates self.base_network 24) rows)) [
      | inl left ↦
          let full = found ∙ ap ok left in
          let taken =
            find_available_subnet-none self 24 rows base (rw default (omega arith))
              (rw default (omega arith)) (omega arith) nets full in
          (λ _. rw default at taken, λ _. create_network-none g name rows m fresh listed full)
      | inr (c, e) ↦
          let one = found ∙ ap ok e in
          let (inside, free, _) =
            find_available_subnet-some self 24 rows base (rw default (omega arith))
              (rw default (omega arith)) (omega arith) nets c one in
          (
            λ failed.
                absurd
                  (create_network-some g name rows m fresh listed c one (ap (λ r. r.0) failed)),
            λ all.
                absurd (
                  let (net, there, shared) = all c (rw default at inside) in free net there shared),
          )
    ]
