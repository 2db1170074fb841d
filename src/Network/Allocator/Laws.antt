-- ===== src/Network/Allocator/Laws.antt =====
-- The subnet that the allocator finds is free, inside the base network, and the lowest such.
use mathlib.Core.List.{Memᴰ}
use dockermock.Prelude.{
  ℕ, zero, suc, ◌+◌, ◌*◌, ◌≤◌, ◌<◌, ◌≡◌, ◌≢◌, inl, inr, true, false, List, [], ◌∷◌, map, some, none,
  All, ok, arith, Bool-cases, sym, refl, ◌∙◌, ok-injective, >>=-eq-ok, Option, ap,
}
use dockermock.Ip.{Ipv4Network, block_size, range, contains, overlaps, IsNetwork}
use dockermock.Ip.Laws.{overlaps_iff}
use dockermock.Ip.Subnets.{
  IsSubnetOf, IsSubnetOf-index, candidates, candidates_sound, candidates_complete,
  subnets-eq-candidates,
}
use dockermock.Network.Allocator.{
  SubnetAllocator, is_overlapping, first_available, find_available_subnet, address_and_prefix,
  allocate_subnet,
}

-- Two networks have an address in common.
abbrev pub Shares : Ipv4Network → Ipv4Network → Type 0
Shares c net = (ip : ℕ) × (contains c ip ≡ true) × (contains net ip ≡ true)

abbrev pub IsFree : List Ipv4Network → Ipv4Network → Type 0
IsFree allocated c = (net : Ipv4Network) → Memᴰ net allocated → ¬ Shares c net

abbrev pub IsTaken : List Ipv4Network → Ipv4Network → Type 0
IsTaken allocated c = (net : Ipv4Network) × Memᴰ net allocated × Shares c net

pub is_overlapping-true :
    (c : Ipv4Network) (allocated : List Ipv4Network)
    → IsNetwork c
    → All IsNetwork allocated
    → is_overlapping c allocated ≡ true
    → IsTaken allocated c
unfolding is_overlapping
is_overlapping-true c [] h k e = cc
is_overlapping-true c (net ∷ nets) h k e = elim (Bool-cases (overlaps c net)) [
  | inl hit ↦ (net, Memᴰ.head refl, (overlaps_iff c net h k.0).0 hit)
  | inr miss ↦
      let (other, m, shared) = is_overlapping-true c nets h k.1 (rw miss at e) in
      (other, Memᴰ.tail m, shared)
]

pub is_overlapping-false :
    (c : Ipv4Network) (allocated : List Ipv4Network)
    → IsNetwork c
    → All IsNetwork allocated
    → is_overlapping c allocated ≡ false
    → IsFree allocated c
unfolding is_overlapping
is_overlapping-false c [] h k e net m = elim m [ ]
is_overlapping-false c (net ∷ nets) h k e other (Memᴰ.head same) =
    λ shared. let hit = (overlaps_iff c net h k.0).1 (rw same at shared) in ground arith
is_overlapping-false c (net ∷ nets) h k e other (Memᴰ.tail m) =
    is_overlapping-false c nets h k.1 (ground arith) other m

module _ (allocated : List Ipv4Network) where
  first_available-some :
      (cs : List Ipv4Network) (c : Ipv4Network)
      → first_available cs allocated ≡ some c
      → Memᴰ c cs × (is_overlapping c allocated ≡ false)
  unfolding first_available
  first_available-some [] c e = cc
  first_available-some (x ∷ cs) c e = elim (Bool-cases (is_overlapping x allocated)) [
    | inl hit ↦ let (m, free) = first_available-some cs c (rw hit at e) in (Memᴰ.tail m, free)
    | inr free ↦ let same : x ≡ c = ground arith in (Memᴰ.head (sym same), rw same at free)
  ]

  first_available-none :
      (cs : List Ipv4Network) (c : Ipv4Network)
      → first_available cs allocated ≡ none
      → Memᴰ c cs
      → is_overlapping c allocated ≡ true
  unfolding first_available
  first_available-none [] c e m = elim m [ ]
  first_available-none (x ∷ cs) c e (Memᴰ.head same) = rw same (ground arith)
  first_available-none (x ∷ cs) c e (Memᴰ.tail m) = first_available-none cs c (ground arith) m

  -- The first candidate is skipped for one with a higher address only if it overlaps.
  skipped_first :
      (start p : ℕ) (cs : List Ipv4Network) (c : Ipv4Network)
      → first_available (record { network_address = start; prefixlen = p } ∷ cs) allocated ≡ some c
      → start < c.network_address
      → (is_overlapping (record { network_address = start; prefixlen = p }) allocated ≡ true)
        × (first_available cs allocated ≡ some c)
  unfolding first_available
  skipped_first start p cs c e low =
      elim (Bool-cases
        (is_overlapping (record { network_address = start; prefixlen = p }) allocated)) [
          | inl hit ↦ (hit, rw hit at e)
          | inr free ↦ absurd (ground arith)
        ]

  -- The candidates are tried in the order of their addresses.
  first_available-lowest :
      (i start step count p : ℕ) (c : Ipv4Network)
      → first_available
          (map (λ a. record { network_address = a; prefixlen = p }) (range start step count))
          allocated
        ≡ some c
      → i < count
      → start + i * step < c.network_address
      → is_overlapping (record { network_address = start + i * step; prefixlen = p }) allocated
        ≡ true
  unfolding range
  first_available-lowest i start step zero p c e lt low = absurd (omega arith)
  first_available-lowest zero start step (suc count) p c e lt low =
      let same : start + 0 * step ≡ start = omega arith in
      rw same (skipped_first start p _ c e (omega arith)).0
  first_available-lowest (suc i) start step (suc count) p c e lt low =
      let same : start + suc i * step ≡ start + step + i * step = omega arith in
      let (_, later) = skipped_first start p _ c e (omega arith) in
      rw same
        (first_available-lowest i (start + step) step count p c later (omega arith) (omega arith))

module _ (self : SubnetAllocator) (p : ℕ) (allocated : List Ipv4Network)
    (base : IsNetwork self.base_network) (big : self.base_network.prefixlen ≢ 32)
    (longer : self.base_network.prefixlen ≤ p) (short : p ≤ 32)
    (nets : All IsNetwork allocated) where
  pub find-eq-first :
      find_available_subnet self p allocated
      ≡ ok (first_available (candidates self.base_network p) allocated)
  unfolding find_available_subnet
  find-eq-first = rw (subnets-eq-candidates self.base_network p big longer short)

  -- For a base network that is not a /32, a new prefix length between the base network's and 32, and
  -- allocated networks that are valid: a subnet that is found is one of the new prefix inside the
  -- base network, it shares no address with an allocated network, and every lower subnet of that
  -- prefix in the base network shares one.
  pub find_available_subnet-some :
      (c : Ipv4Network)
      → find_available_subnet self p allocated ≡ ok (some c)
      → IsSubnetOf self.base_network p c
        × IsFree allocated c
        × ((d : Ipv4Network)
            → IsSubnetOf self.base_network p d
            → d.network_address < c.network_address
            → IsTaken allocated d)
  find_available_subnet-some c e =
      let n = self.base_network in
      let found : first_available (candidates n p) allocated ≡ some c =
        ok-injective (sym find-eq-first ∙ e) in
      let (m, free) = first_available-some allocated (candidates n p) c found in
      let inside = candidates_sound n p base longer short c m in
      (
        inside,
        is_overlapping-false c allocated inside.network nets free,
        λ d h low.
            let (i, lt, at) = IsSubnetOf-index n p base longer short d h in
            let same : record {
              network_address = n.network_address + i * block_size p;
              prefixlen = p;
            }
                ≡ d =
              ground (arith, h.new_prefix) in
            is_overlapping-true d allocated h.network nets (
              rw same at (
                first_available-lowest allocated i n.network_address (block_size p) _ p c found lt
                  (omega arith))),
      )

  -- For a base network that is not a /32, a new prefix length between the base network's and 32, and
  -- allocated networks that are valid: when none is found, every subnet of the prefix inside the base network shares an address with
  -- an allocated network.
  pub find_available_subnet-none :
      find_available_subnet self p allocated ≡ ok none
      → (d : Ipv4Network) → IsSubnetOf self.base_network p d
      → IsTaken allocated d
  find_available_subnet-none e d h =
      let n = self.base_network in
      let none_left = ok-injective (sym find-eq-first ∙ e) in
      is_overlapping-true d allocated h.network nets (
        first_available-none allocated (candidates n p) d none_left
          (candidates_complete n p base longer short d h))

address_and_prefix-some :
    (o : Option Ipv4Network) (a q : ℕ)
    → address_and_prefix o ≡ some (a, q)
    → o ≡ some (record { network_address = a; prefixlen = q })
address_and_prefix-some none a q e = absurd cc
address_and_prefix-some (some n) a q e =
    let address : n.network_address ≡ a = cc in
    let prefix : n.prefixlen ≡ q = cc in rw (← address, ← prefix)

pub allocate_subnet-some :
    (self : SubnetAllocator) (allocated : List Ipv4Network) (p a q : ℕ)
    → allocate_subnet self allocated p ≡ ok (some (a, q))
    → find_available_subnet self p allocated
      ≡ ok (some (record { network_address = a; prefixlen = q }))
unfolding allocate_subnet
allocate_subnet-some self allocated p a q e =
    let (found, e', paired) = >>=-eq-ok (find_available_subnet self p allocated) _ e in
    e' ∙ ap ok (address_and_prefix-some found a q (ok-injective paired))

pub allocate_subnet-none :
    (self : SubnetAllocator) (allocated : List Ipv4Network) (p : ℕ)
    → find_available_subnet self p allocated ≡ ok none
    → allocate_subnet self allocated p ≡ ok none
unfolding allocate_subnet
allocate_subnet-none self allocated p e = rw (allocate_subnet, e)
