-- ===== src/Dns/SubnetTrie/Bits.antt =====
-- The leading bits of two addresses agree exactly when a shift leaves the same number.
use native.Mathlib.Nat.{div-div-eq-div-mul, two-pow-succ, div-add-mod', mul-div_left}
use dockermock.Prelude.{
  ℕ, zero, suc, ◌+◌, ◌-◌, ◌*◌, ◌/◌, ◌^◌, ◌≤◌, ◌<◌, ◌≡◌, refl, ap, ◌↔◌, Bool, true, ◌&&◌, ◌==◌,
  nat_eq, arith, sym, ◌∙◌, and-true, nat_beq_iff,
}
use dockermock.Ip.{Ipv4Network, block_size, masked, contains, IsNetwork}
use dockermock.Ip.Laws.{block_size_pos}
use dockermock.Dns.SubnetTrie.{get_bit}

-- Bits i, …, i + k - 1 are equal.
unfoldable pub same_bits : ℕ → ℕ → ℕ → ℕ → Bool
same_bits zero i a b = true
same_bits (suc k) i a b = get_bit a i == get_bit b i && same_bits k (i + 1) a b

-- The number that the first k of the 32 bits stand for.
top : ℕ → ℕ → ℕ
top k x = x / 2 ^ (32 - k)

top_step : (i x : ℕ) → i < 32 → top (i + 1) x ≡ 2 * top i x + get_bit x i
unfolding top get_bit
top_step i x h =
    let wide : 2 ^ (32 - i) ≡ 2 ^ (31 - i) * 2 =
      let e : 32 - i ≡ suc (31 - i) = omega arith in rw e (omega (arith, two-pow-succ (31 - i))) in
    let halved : x / 2 ^ (32 - i) ≡ x / 2 ^ (31 - i) / 2 =
      rw wide (sym (div-div-eq-div-mul x (2 ^ (31 - i)) 2)) in
    let e : 32 - (i + 1) ≡ 31 - i = omega arith in rw (e, halved) (omega arith)

pub get_bit-lt : (x i : ℕ) → get_bit x i < 2
unfolding get_bit
get_bit-lt x i = omega arith

-- Equal at j + k bits, equal at j bits.
top_shorter : (k j a b : ℕ) → j + k ≤ 32 → top (j + k) a ≡ top (j + k) b → top j a ≡ top j b
top_shorter zero j a b h e = let same : j + 0 ≡ j = omega arith in rw same at e
top_shorter (suc k) j a b h e =
    let same : j + suc k ≡ j + 1 + k = omega arith in
    let longer = top_shorter k (j + 1) a b (omega arith) (rw same at e) in
    omega (
      arith,
      longer,
      top_step j a (omega arith),
      top_step j b (omega arith),
      get_bit-lt a j,
      get_bit-lt b j,
    )

same_bits-top :
    (k i a b : ℕ)
    → i + k ≤ 32
    → top i a ≡ top i b
    → (same_bits k i a b ≡ true) ↔ (top (i + k) a ≡ top (i + k) b)
unfolding same_bits
same_bits-top zero i a b h e = let same : i + 0 ≡ i = omega arith in rw same ((λ _. e), (λ _. refl))
same_bits-top (suc k) i a b h e =
    let same : i + suc k ≡ i + 1 + k = omega arith in
    let sa = top_step i a (omega arith) in
    let sb = top_step i b (omega arith) in
    let ih = same_bits-top k (i + 1) a b (omega arith) in
    rw same (
      (λ bits.
          let (first, rest) =
            and-true (get_bit a i == get_bit b i) (same_bits k (i + 1) a b) bits in
          let next : top (i + 1) a ≡ top (i + 1) b =
            omega (arith, sa, sb, e, (nat_beq_iff (get_bit a i) (get_bit b i)).0 first) in
          (ih next).0 rest),
      (λ tops.
          let next = top_shorter k (i + 1) a b (omega arith) tops in
          let first : get_bit a i ≡ get_bit b i = omega (arith, sa, sb, e, next) in
          ground (arith, first, (ih next).1 tops)),
    )

-- The trie's path to a network leads to an address exactly when the network contains it.
pub same_bits-contains :
    (n : Ipv4Network) (ip : ℕ)
    → IsNetwork n
    → ip < 2 ^ 32
    → (same_bits n.prefixlen 0 n.network_address ip ≡ true) ↔ (contains n ip ≡ true)
unfolding contains top
same_bits-contains n ip h small =
    let p = n.prefixlen in
    let a = n.network_address in
    let pos : 0 < block_size p = block_size_pos p in
    let from_top : top 0 a ≡ top 0 ip = omega (arith, h.bounded) in
    let same : 0 + p ≡ p = omega arith in
    let (to, from) = same_bits-top p 0 a ip (omega (arith, h.short)) from_top in
    let whole : a / block_size p * block_size p ≡ a =
      omega (arith, div-add-mod' a (block_size p), h.aligned) in
    (
      λ bits.
          let tops : a / block_size p ≡ ip / block_size p = rw same at (to bits) in
          (nat_beq_iff (masked p ip) a).1 (rw tops at whole),
      λ inside.
          let e : ip / block_size p * block_size p ≡ a = (nat_beq_iff (masked p ip) a).0 inside in
          let tops : a / block_size p ≡ ip / block_size p =
            ap (λ (t : ℕ). t / block_size p) (sym e) ∙ mul-div_left (ip / block_size p) pos in
          from (rw same tops),
    )
