-- ===== src/Ip/Laws.antt =====
-- Membership and overlap of networks as facts about addresses.
use native.Mathlib.Nat.{div-mul-le_self, lt-div-mul-add, div-eq_of_lt-le, one-le-pow, div-add-mod'}
use dockermock.Prelude.{
  ℕ, ◌+◌, ◌-◌, ◌*◌, ◌/◌, ◌%◌, ◌≤◌, ◌<◌, ◌≡◌, ◌↔◌, inl, inr, true, or-cases, arith,
}
use dockermock.Ip.{Ipv4Network, block_size, broadcast_address, contains, overlaps, IsNetwork}

pub block_size_pos : (p : ℕ) → 0 < block_size p
block_size_pos p = one-le-pow (32 - p) 2 (omega arith)

masked_lem : (s a ip : ℕ) → 0 < s → a % s ≡ 0 → a ≤ ip → ip < a + s → ip / s * s ≡ a
masked_lem s a ip pos al lo hi =
    let whole : a / s * s ≡ a = omega (arith, div-add-mod' a s) in
    let same : ip / s ≡ a / s = div-eq_of_lt-le s {m = ip} (omega arith) (omega arith) in
    rw same whole

-- An address is in a network when it lies between the network address and the broadcast address.
pub contains_iff :
    (n : Ipv4Network) (ip : ℕ)
    → IsNetwork n
    → (contains n ip ≡ true)
      ↔ ((n.network_address ≤ ip) × (ip < n.network_address + block_size n.prefixlen))
unfolding contains
contains_iff n ip h =
    let s = block_size n.prefixlen in
    let pos : 0 < s = block_size_pos n.prefixlen in
    (
      λ e. ground (arith, div-mul-le_self ip s, lt-div-mul-add {a = ip} pos),
      λ m. ground (arith, masked_lem s n.network_address ip pos h.aligned m.0 m.1),
    )

pub contains_first : (n : Ipv4Network) → IsNetwork n → contains n n.network_address ≡ true
contains_first n h =
    (contains_iff n n.network_address h).1 (omega (arith, block_size_pos n.prefixlen))

pub contains_last : (n : Ipv4Network) → IsNetwork n → contains n (broadcast_address n) ≡ true
contains_last n h =
    (contains_iff n (broadcast_address n) h).1 (omega (arith, block_size_pos n.prefixlen))

-- Two networks overlap exactly when they share an address.
pub overlaps_iff :
    (a b : Ipv4Network)
    → IsNetwork a
    → IsNetwork b
    → (overlaps a b ≡ true) ↔ ((ip : ℕ) × (contains a ip ≡ true) × (contains b ip ≡ true))
unfolding overlaps
overlaps_iff a b h k = (
  λ e. elim (or-cases _ _ e) [
    | inl p ↦ (a.network_address, contains_first a h, p)
    | inr e ↦ elim (or-cases _ _ e) [
      | inl p ↦ (broadcast_address a, contains_last a h, p)
      | inr e ↦ elim (or-cases _ _ e) [
        | inl p ↦ (b.network_address, p, contains_first b k)
        | inr p ↦ (broadcast_address b, p, contains_last b k)
      ]
    ]
  ],
  λ m. ground (
    arith,
    contains_iff a m.0 h,
    contains_iff b m.0 k,
    contains_iff b a.network_address k,
    contains_iff a b.network_address h,
  ),
)
