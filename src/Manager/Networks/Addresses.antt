-- ===== src/Manager/Networks/Addresses.antt =====
-- The addresses that the containers get in a network.
use mathlib.Core.List.{Memᴰ}
use mathlib.Core.List.Memᴰ
use dockermock.Prelude.{
  ◌≡◌, ◌≢◌, sym, ap, ◌∙◌, inl, inr, ℕ, ◌<◌, ◌≤◌, ◌+◌, ◌-◌, ◌^◌, ◌*◌, suc, true, false, Option, none,
  some, List, [], ◌∷◌, ◌==◌, string_eq, nat_eq, arith, ◌>>=◌, Bool-cases, Option-cases, Exc, Result,
  ok, raise, ok-injective, >>=-eq-ok,
}
use dockermock.Ip.{Ipv4Network, hosts, next, range, ip_network, block_size, broadcast_address}
use native.Mathlib.Nat.{one-le-pow}
use dockermock.Ip.Subnets.{mem-range, range_bounds, two_pow_add}
use dockermock.Manager.Store.{Tables, fetchone}
use dockermock.Manager.Networks.{
  is_used, first_free, allocate_ip, used_ips, get_free_ip_for_network, network_with_id,
  after_gateway,
}

is_used-false : (ip : ℕ) (used : List (Option ℕ)) → is_used ip used ≡ false → ¬ Memᴰ (some ip) used
unfolding is_used
is_used-false ip [] e m = elim m [ ]
is_used-false ip (none ∷ used) e m = elim (Memᴰ.cases_cons m) [
  | inl h ↦ cc
  | inr m ↦ is_used-false ip used e m
]
is_used-false ip (some u ∷ used) e m = elim (Memᴰ.cases_cons m) [
  | inl h ↦ let h' : ip ≡ u = cc in absurd (ground arith)
  | inr m ↦ is_used-false ip used (ground arith) m
]

is_used-true : (ip : ℕ) (used : List (Option ℕ)) → is_used ip used ≡ true → Memᴰ (some ip) used
unfolding is_used
is_used-true ip [] e = absurd cc
is_used-true ip (none ∷ used) e = Memᴰ.tail (is_used-true ip used e)
is_used-true ip (some u ∷ used) e = elim (Bool-cases (ip == u)) [
  | inl same ↦ let h : ip ≡ u = ground arith in Memᴰ.head (ap some h)
  | inr differs ↦ Memᴰ.tail (is_used-true ip used (ground arith))
]

-- The first address of the list that is not used, and the ones before it are used.
first_free-some :
    (ips : List ℕ) (used : List (Option ℕ)) (ip : ℕ)
    → first_free ips used ≡ some ip
    → Memᴰ ip ips × (¬ Memᴰ (some ip) used)
unfolding first_free
first_free-some [] used ip e = absurd cc
first_free-some (x ∷ ips) used ip e = elim (Bool-cases (is_used x used)) [
  | inl taken ↦ let (m, free) = first_free-some ips used ip (rw taken at e) in (Memᴰ.tail m, free)
  | inr free ↦
      let h : x ≡ ip = ground arith in (Memᴰ.head (sym h), is_used-false ip used (rw h at free))
]

first_free-none :
    (ips : List ℕ) (used : List (Option ℕ)) (ip : ℕ)
    → first_free ips used ≡ none
    → Memᴰ ip ips
    → Memᴰ (some ip) used
unfolding first_free
first_free-none [] used ip e m = elim m [ ]
first_free-none (x ∷ ips) used ip e m = elim (Bool-cases (is_used x used)) [
  | inl taken ↦ elim (Memᴰ.cases_cons m) [
    | inl h ↦ rw h (is_used-true x used taken)
    | inr m ↦ first_free-none ips used ip (rw taken at e) m
  ]
  | inr free ↦ absurd (ground arith)
]

allocate_ip-eq :
    (n : Ipv4Network) (used : List (Option ℕ)) (gateway : ℕ) (rest : List ℕ)
    → next (hosts n) ≡ ok (gateway, rest)
    → allocate_ip n used ≡ ok (first_free rest used)
allocate_ip-eq n used gateway rest e = unfold allocate_ip in rw e

pub hosts_short :
    (n : Ipv4Network)
    → n.prefixlen ≤ 30
    → (count : ℕ) × (n.network_address + 2 + count ≡ broadcast_address n)
      × (next (hosts n) ≡ ok (n.network_address + 1, range (n.network_address + 2) 1 count))
unfolding hosts next range
hosts_short n short =
    let four : block_size n.prefixlen ≡ 2 ^ 2 * 2 ^ (30 - n.prefixlen) =
      let e : 32 - n.prefixlen ≡ 2 + (30 - n.prefixlen) = omega arith in
      rw e (two_pow_add 2 (30 - n.prefixlen)) in
    let some_left = one-le-pow (30 - n.prefixlen) 2 (omega arith) in
    let size : block_size n.prefixlen - 2 ≡ suc (block_size n.prefixlen - 3) = omega arith in
    let two : n.network_address + 1 + 1 ≡ n.network_address + 2 = omega arith in
    let not_32 : (n.prefixlen == 32) ≡ false = ground arith in
    let not_31 : (n.prefixlen == 31) ≡ false = ground arith in
    (block_size n.prefixlen - 3, omega arith, rw (not_32, not_31, size) (rw two))

-- For a network of prefix length at most 30: the address that is given is a host address of the
-- network other than the first one, the gateway's, and it is not used.
pub allocate_ip-some :
    (n : Ipv4Network) (used : List (Option ℕ)) (ip : ℕ)
    → n.prefixlen ≤ 30
    → allocate_ip n used ≡ ok (some ip)
    → (n.network_address + 2 ≤ ip) × (ip < broadcast_address n) × (¬ Memᴰ (some ip) used)
allocate_ip-some n used ip short e =
    let (count, ends, start) = hosts_short n short in
    let found : first_free (range (n.network_address + 2) 1 count) used ≡ some ip =
      ok-injective (sym (allocate_ip-eq n used _ _ start) ∙ e) in
    let (m, free) = first_free-some (range (n.network_address + 2) 1 count) used ip found in
    let (i, lt, at) = range_bounds ip (n.network_address + 2) 1 count m in
    (omega arith, omega arith, free)

-- For a network of prefix length at most 30: no address is given only when all its host addresses
-- but the gateway's are used.
pub allocate_ip-none :
    (n : Ipv4Network) (used : List (Option ℕ)) (ip : ℕ)
    → n.prefixlen ≤ 30
    → allocate_ip n used ≡ ok none
    → n.network_address + 2 ≤ ip
    → ip < broadcast_address n
    → Memᴰ (some ip) used
allocate_ip-none n used ip short e low high =
    let (count, ends, start) = hosts_short n short in
    let none_left : first_free (range (n.network_address + 2) 1 count) used ≡ none =
      ok-injective (sym (allocate_ip-eq n used _ _ start) ∙ e) in
    let at =
      mem-range (ip - (n.network_address + 2)) (n.network_address + 2) 1 count (omega arith) in
    first_free-none (range (n.network_address + 2) 1 count) used ip none_left
      (Memᴰ.cast (omega arith) at)

raise-some :
    (e : Exc) (used : List (Option ℕ)) (ip : ℕ) → after_gateway (raise e) used ≢ ok (some ip)
raise-some Exc.stop_iteration used ip h = cc
raise-some Exc.value_error used ip h = cc
raise-some Exc.type_error used ip h = cc
raise-some Exc.attribute_error used ip h = cc
raise-some Exc.name_error used ip h = cc
raise-some Exc.key_error used ip h = cc
raise-some Exc.unbound_local_error used ip h = cc
raise-some Exc.integrity_error used ip h = cc
raise-some Exc.index_error used ip h = cc
raise-some Exc.broken_pipe used ip h = cc
raise-some Exc.exception used ip h = cc
raise-some (Exc.os_error n) used ip h = cc

after_gateway-fresh :
    (r : Result (ℕ × List ℕ)) (used : List (Option ℕ)) (ip : ℕ)
    → after_gateway r used ≡ ok (some ip)
    → ¬ Memᴰ (some ip) used
after_gateway-fresh (raise e) used ip h = absurd (raise-some e used ip h)
after_gateway-fresh (ok (gateway, rest)) used ip h =
    (first_free-some rest used ip (ok-injective h)).1

allocate_ip-fresh :
    (n : Ipv4Network) (used : List (Option ℕ)) (ip : ℕ)
    → allocate_ip n used ≡ ok (some ip)
    → ¬ Memᴰ (some ip) used
unfolding allocate_ip
allocate_ip-fresh n used ip e = after_gateway-fresh (next (hosts n)) used ip e

pub get_free_ip-fresh :
    (i : ℕ) (t : Tables) (ip : ℕ)
    → get_free_ip_for_network i t ≡ ok (some ip)
    → ¬ Memᴰ (some ip) (used_ips i t)
unfolding get_free_ip_for_network
get_free_ip-fresh i t ip e = elim (Option-cases (fetchone (network_with_id i) t.networks)) [
  | inl missing ↦ absurd (ground arith)
  | inr (row, found) ↦
      let given : (ip_network row.subnet row.prefix >>= λ n. allocate_ip n (used_ips i t))
          ≡ ok (some ip) =
        ground arith in
      let (n, _, allocated) = >>=-eq-ok (ip_network row.subnet row.prefix) _ given in
      allocate_ip-fresh n (used_ips i t) ip allocated
]
