-- ===== src/Ip/Subnets.antt =====
-- The candidates that `subnets` enumerates: the networks of the new prefix inside the old one,
-- each once, in the order of their addresses.
use mathlib.Core.List.{Memᴰ}
use mathlib.Core.List.Memᴰ
use native.Mathlib.Nat.{
  div-add-mod', two-pow-succ, mul-le-mul_right, mul-mod_left, le_of_mul-le-mul_right,
}
use dockermock.Prelude.{
  ℕ, zero, suc, ◌+◌, ◌-◌, ◌*◌, ◌/◌, ◌%◌, ◌^◌, ◌≤◌, ◌<◌, ◌≡◌, refl, ap, ◌≢◌, List, map, arith, ok,
}
use dockermock.Ip.{Ipv4Network, block_size, range, subnets, IsNetwork}
use dockermock.Ip.Laws.{block_size_pos}

pub two_pow_add : (a b : ℕ) → 2 ^ (a + b) ≡ 2 ^ a * 2 ^ b
two_pow_add zero b = let e : zero + b ≡ b = omega arith in rw e (omega arith)
two_pow_add (suc a) b =
    let e : suc a + b ≡ suc (a + b) = omega arith in
    rw e (
      omega (
        arith,
        two-pow-succ (a + b),
        two-pow-succ a,
        two_pow_add a b,
        ap (λ (t : ℕ). t * 2 ^ b) (two-pow-succ a),
      ))

pub block_size_split : (q p : ℕ) → q ≤ p → p ≤ 32 → block_size q ≡ block_size p * 2 ^ (p - q)
block_size_split q p h k =
    let e : 32 - q ≡ 32 - p + (p - q) = omega arith in rw e (two_pow_add (32 - p) (p - q))

-- c is the i-th candidate.
pub range_bounds :
    (x start step count : ℕ)
    → Memᴰ x (range start step count)
    → (i : ℕ) × (i < count) × (x ≡ start + i * step)
unfolding range
range_bounds x start step zero m = elim m [ ]
range_bounds x start step (suc count) (Memᴰ.head e) = (0, omega arith, omega arith)
range_bounds x start step (suc count) (Memᴰ.tail m) =
    let (i, lt, e) = range_bounds x (start + step) step count m in (suc i, omega arith, grind arith)

pub mem-range :
    (i start step count : ℕ) → i < count → Memᴰ (start + i * step) (range start step count)
unfolding range
mem-range i start step zero h = absurd (omega arith)
mem-range zero start step (suc count) h = Memᴰ.head (omega arith)
mem-range (suc i) start step (suc count) h =
    Memᴰ.tail (Memᴰ.cast (grind arith) (mem-range i (start + step) step count (omega arith)))

-- Every candidate is a network of the new prefix that lies inside `n`.
pub record IsSubnetOf (n : Ipv4Network) (p : ℕ) (c : Ipv4Network) : Type 0 where
  pub network : IsNetwork c
  pub new_prefix : c.prefixlen ≡ p
  pub above : n.network_address ≤ c.network_address
  pub below : c.network_address + block_size p ≤ n.network_address + block_size n.prefixlen

module _ (n : Ipv4Network) (p : ℕ) (valid : IsNetwork n) (longer : n.prefixlen ≤ p)
    (short : p ≤ 32) where
  network_multiple : (w : ℕ) × (n.network_address ≡ w * block_size p)
  network_multiple =
      let whole = div-add-mod' n.network_address (block_size n.prefixlen) in
      (
        n.network_address / block_size n.prefixlen * 2 ^ (p - n.prefixlen),
        omega (
          arith,
          whole,
          valid.aligned,
          ap (λ (t : ℕ). n.network_address / block_size n.prefixlen * t)
              (block_size_split n.prefixlen p longer short),
        ),
      )

  pub candidate-IsSubnetOf :
      (i : ℕ)
      → i < 2 ^ (p - n.prefixlen)
      → IsSubnetOf n p
          (record { network_address = n.network_address + i * block_size p; prefixlen = p })
  candidate-IsSubnetOf i h =
      let (w, ew) = network_multiple in
      let split = block_size_split n.prefixlen p longer short in
      let room : (i + 1) * block_size p ≤ 2 ^ (p - n.prefixlen) * block_size p =
        mul-le-mul_right (block_size p) (omega arith) in
      record {
        network = record {
          short = short;
          aligned =
              let e : n.network_address + i * block_size p ≡ (w + i) * block_size p = omega arith in
              rw e (mul-mod_left (w + i) (block_size p));
          bounded = omega (arith, valid.bounded, split, room);
        };
        new_prefix = refl;
        above = omega arith;
        below = omega (arith, split, room);
      }

  pub IsSubnetOf-index :
      (c : Ipv4Network)
      → IsSubnetOf n p c
      → (i : ℕ) × (i < 2 ^ (p - n.prefixlen))
        × (c.network_address ≡ n.network_address + i * block_size p)
  IsSubnetOf-index c h =
      let b = block_size p in
      let pos : 0 < b = block_size_pos p in
      let (w, ew) = network_multiple in
      let v = c.network_address / b in
      let aligned : c.network_address % b ≡ 0 = rw h.new_prefix at h.network.aligned in
      let ev : v * b ≡ c.network_address = omega (arith, div-add-mod' c.network_address b) in
      let split = block_size_split n.prefixlen p longer short in
      let low : w ≤ v = le_of_mul-le-mul_right {k = b} (omega (arith, h.above)) pos in
      let high : v + 1 ≤ w + 2 ^ (p - n.prefixlen) =
        le_of_mul-le-mul_right {k = b} (omega (arith, h.below)) pos in
      let e : v ≡ w + (v - w) = omega arith in
      (v - w, omega arith, omega (arith, ap (λ (t : ℕ). t * b) e))

-- The list that `subnets` yields, where it does not raise.
abbrev pub candidates : Ipv4Network → ℕ → List Ipv4Network
candidates n p =
    map (λ a. record { network_address = a; prefixlen = p })
      (range n.network_address (block_size p) (2 ^ (p - n.prefixlen)))

pub subnets-eq-candidates :
    (n : Ipv4Network) (p : ℕ)
    → n.prefixlen ≢ 32
    → n.prefixlen ≤ p
    → p ≤ 32
    → subnets n p ≡ ok (candidates n p)
unfolding subnets
subnets-eq-candidates n p big longer short = ground arith

module _ (n : Ipv4Network) (p : ℕ) (valid : IsNetwork n) (longer : n.prefixlen ≤ p)
    (short : p ≤ 32) where
  pub candidates_sound : (c : Ipv4Network) → Memᴰ c (candidates n p) → IsSubnetOf n p c
  candidates_sound c m =
      let (a, at, e) = Memᴰ.of_map _ _ m in
      let (i, lt, ea) = range_bounds a n.network_address (block_size p) _ at in
      rw (← e, ea) (candidate-IsSubnetOf n p valid longer short i lt)

  pub candidates_complete : (c : Ipv4Network) → IsSubnetOf n p c → Memᴰ c (candidates n p)
  candidates_complete c h =
      let (i, lt, e) = IsSubnetOf-index n p valid longer short c h in
      let at = mem-range i n.network_address (block_size p) _ lt in
      Memᴰ.cast
        {b = record { network_address = n.network_address + i * block_size p; prefixlen = p }}
        (ground (arith, h.new_prefix))
        (Memᴰ.map (λ (a : ℕ). record { network_address = a; prefixlen = p }) at)
