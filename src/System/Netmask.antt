-- ===== src/System/Netmask.antt =====
-- app2/helpers.py, `offset_to_netmask`: the mask of a prefix length, by its four octets (the code
-- joins their decimal texts with dots).
use native.Mathlib.Nat.{one-le-pow}
use dockermock.Prelude.{
  ℕ, zero, suc, ◌+◌, ◌-◌, ◌*◌, ◌/◌, ◌%◌, ◌^◌, ◌≤◌, ◌<◌, ◌≡◌, sym, ◌∙◌, true, false, if◌then◌else◌,
  leb, Result, ok, raise, value_error, arith, ok-injective, Bool-cases, inl, inr,
}
use dockermock.Ip.{block_size}
use dockermock.Ip.Laws.{block_size_pos}
use dockermock.Ip.Subnets.{two_pow_add}

pub record Octets : Type 0 where
  pub first : ℕ
  pub second : ℕ
  pub third : ℕ
  pub fourth : ℕ

-- ((1<<n)-1)<<(32-n), and its bytes by `>>` and `& ((1<<8)-1)`
abbrev pub numeric_mask : ℕ → ℕ
numeric_mask n = (2 ^ n - 1) * 2 ^ (32 - n)

abbrev pub octets_of : ℕ → Octets
octets_of mask = record {
  first = mask / 2 ^ 24 % 256;
  second = mask / 2 ^ 16 % 256;
  third = mask / 2 ^ 8 % 256;
  fourth = mask % 256;
}

-- A shift by a negative count, where n is above 32, is a ValueError.
unfoldable pub offset_to_netmask : ℕ → Result Octets
offset_to_netmask offset =
    if leb offset 32 then ok (octets_of (numeric_mask offset)) else raise value_error

-- The number that four octets write.
abbrev pub number_of : Octets → ℕ
number_of o = o.first * 2 ^ 24 + o.second * 2 ^ 16 + o.third * 2 ^ 8 + o.fourth

pred_mul : (a b : ℕ) → 1 ≤ a → (a - 1) * b ≡ a * b - b
pred_mul zero b h = absurd (omega arith)
pred_mul (suc a) b h = let e : suc a - 1 ≡ a = omega arith in rw e (grind arith)

numeric_mask-eq : (n : ℕ) → n ≤ 32 → numeric_mask n ≡ 2 ^ 32 - block_size n
numeric_mask-eq n h =
    let e : n + (32 - n) ≡ 32 = omega arith in
    let split : 2 ^ 32 ≡ 2 ^ n * 2 ^ (32 - n) = rw e at (two_pow_add n (32 - n)) in
    rw split (pred_mul (2 ^ n) (2 ^ (32 - n)) (one-le-pow n 2 (omega arith)))

number_of-octets_of : (x : ℕ) → x < 2 ^ 32 → number_of (octets_of x) ≡ x
number_of-octets_of x h = omega arith

offset_to_netmask-short :
    (n : ℕ) → leb n 32 ≡ true → offset_to_netmask n ≡ ok (octets_of (numeric_mask n))
unfolding offset_to_netmask
offset_to_netmask-short n short = rw short

offset_to_netmask-long : (n : ℕ) → leb n 32 ≡ false → offset_to_netmask n ≡ raise value_error
unfolding offset_to_netmask
offset_to_netmask-long n long = rw long

-- Where a mask is returned, the prefix length is at most 32, the octets are below 256, and the number
-- that they write is the mask of `ipaddress`, all ones but for the bits of the hosts.
pub offset_to_netmask-number_of :
    (n : ℕ) (o : Octets)
    → offset_to_netmask n ≡ ok o
    → (n ≤ 32)
      × (number_of o ≡ 2 ^ 32 - block_size n)
      × (o.first < 256)
      × (o.second < 256)
      × (o.third < 256)
      × (o.fourth < 256)
offset_to_netmask-number_of n o e = elim (Bool-cases (leb n 32)) [
  | inl short ↦
      let h : n ≤ 32 = ground arith in
      let given : octets_of (numeric_mask n) ≡ o =
        ok-injective (sym (offset_to_netmask-short n short) ∙ e) in
      let mask = numeric_mask-eq n h in
      let pos = block_size_pos n in
      let below : numeric_mask n < 2 ^ 32 = omega (arith, mask, pos) in
      rw (← given) (
        h,
        number_of-octets_of (numeric_mask n) below ∙ mask,
        omega arith,
        omega arith,
        omega arith,
        omega arith,
      )
  | inr long ↦ absurd (let refused = offset_to_netmask-long n long in cc)
]
