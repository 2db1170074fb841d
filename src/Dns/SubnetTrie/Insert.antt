-- ===== src/Dns/SubnetTrie/Insert.antt =====
-- What `insert` writes: one name, at the node that the leading bits lead to.
use dockermock.Prelude.{
  ℕ, zero, suc, ◌+◌, ◌<◌, ◌≡◌, ◌≢◌, refl, inl, inr, Bool-cases, nat_beq_iff, false, ◌&&◌, Option,
  none, some, if◌then◌else◌, ◌==◌, nat_eq, arith,
}
use dockermock.Ip.{Ipv4Network}
use dockermock.Dns.SubnetTrie.{
  Trie, absent, node, SubnetTrie, get_bit, root, present, created, child, set_child, insert_from,
  insert, name_of, is_absent, with_root, new_trie,
}
use dockermock.Dns.SubnetTrie.Bits.{same_bits, get_bit-lt}

module _ {A : Type 0} where
  -- The name at the end of the path of `k` bits from bit i on.
  unfoldable pub name_at : ℕ → ℕ → ℕ → Trie A → Option A
  name_at zero i ip n = name_of n
  name_at (suc k) i ip n = name_at k (i + 1) ip (child (get_bit ip i) n)

  -- The nodes of a trie.
  pub size : Trie A → ℕ
  size absent = 0
  size (node o l r) = 1 + size l + size r

  insert_from-present :
      (k i ip : ℕ) (name : A) (n : Trie A)
      → is_absent n ≡ false
      → is_absent (insert_from k i ip name n).0 ≡ false
  unfolding insert_from
  insert_from-present zero i ip name n h = ground arith
  insert_from-present (suc k) i ip name n h = ground arith

  pub name_at-absent : (k i ip : ℕ) → name_at k i ip absent ≡ none
  unfolding name_at
  name_at-absent zero i ip = refl
  name_at-absent (suc k) i ip = name_at-absent k (i + 1) ip

  name_at-present : (k i ip : ℕ) (n : Trie A) → name_at k i ip (present n) ≡ name_at k i ip n
  unfolding name_at
  name_at-present k i ip (node o l r) = refl
  name_at-present zero i ip absent = refl
  name_at-present (suc k) i ip absent = ground (arith, name_at-absent k (i + 1) ip)

  child-set_child : (b : ℕ) (c n : Trie A) → is_absent n ≡ false → child b (set_child b c n) ≡ c
  child-set_child b c n h = ground arith

  child-set_child_ne :
      (b b' : ℕ) (c n : Trie A) → b < 2 → b' < 2 → b ≢ b' → child b' (set_child b c n) ≡ child b' n
  child-set_child_ne b b' c n h h' ne = ground arith

  size-set_child :
      (b : ℕ) (c n : Trie A)
      → is_absent n ≡ false
      → size (set_child b c n) + size (child b n) ≡ size n + size c
  unfolding size
  size-set_child b c n h = ground arith

  size-present : (n : Trie A) → size (present n) ≡ size n + created n
  unfolding size
  size-present absent = refl
  size-present (node o l r) = omega arith

  present-is_absent : (n : Trie A) → is_absent (present n) ≡ false
  present-is_absent absent = refl
  present-is_absent (node o l r) = refl

  size-insert_from :
      (k i ip : ℕ) (name : A) (n : Trie A)
      → is_absent n ≡ false
      → size (insert_from k i ip name n).0 ≡ size n + (insert_from k i ip name n).1
  unfolding insert_from
  size-insert_from zero i ip name n h = unfold size in ground arith
  size-insert_from (suc k) i ip name n h =
      let c = child (get_bit ip i) n in
      omega (
        arith,
        size-insert_from k (i + 1) ip name (present c) (present-is_absent c),
        size-set_child (get_bit ip i) (insert_from k (i + 1) ip name (present c)).0 n h,
        size-present c,
      )

  pub name_at-suc :
      (j i other : ℕ) (n : Trie A)
      → name_at (suc j) i other n ≡ name_at j (i + 1) other (child (get_bit other i) n)
  unfolding name_at
  name_at-suc j i other n = refl

  name_at-set_child :
      (j i ip other : ℕ) (c n : Trie A)
      → is_absent n ≡ false
      → name_at (suc j) i other (set_child (get_bit ip i) c n) ≡ (
          if get_bit ip i == get_bit other i
          then name_at j (i + 1) other c
          else name_at (suc j) i other n)
  unfolding name_at
  name_at-set_child j i ip other c n h = elim (Bool-cases (get_bit ip i == get_bit other i)) [
    | inl same ↦
        let e = (nat_beq_iff (get_bit ip i) (get_bit other i)).0 same in
        rw same (rw (← e) (rw (child-set_child (get_bit ip i) c n h)))
    | inr differs ↦
        let ne : get_bit ip i ≢ get_bit other i = ground arith in
        rw differs (
          rw (
            child-set_child_ne (get_bit ip i) (get_bit other i) c n (get_bit-lt ip i)
              (get_bit-lt other i) ne))
  ]

  name_at-insert_from :
      (k i ip : ℕ) (name : A) (n : Trie A) (j other : ℕ)
      → is_absent n ≡ false
      → name_at j i other (insert_from k i ip name n).0
        ≡ (if k == j && same_bits k i ip other then some name else name_at j i other n)
  unfolding insert_from same_bits
  name_at-insert_from zero i ip name n zero other h = unfold name_at in ground arith
  name_at-insert_from zero i ip name n (suc j) other h = unfold name_at in ground arith
  name_at-insert_from (suc k) i ip name n zero other h = unfold name_at in ground arith
  name_at-insert_from (suc k) i ip name n (suc j) other h =
      let c = child (get_bit ip i) n in
      let c' = (insert_from k (i + 1) ip name (present c)).0 in
      let ih = name_at-insert_from k (i + 1) ip name (present c) j other (present-is_absent c) in
      rw (name_at-set_child j i ip other c' n h)
        (rw (ih, name_at-present j (i + 1) other c) (ground (arith, name_at-suc j i other n)))

  root-with_root :
      (n : Trie A) (made : ℕ) (t : SubnetTrie A)
      → is_absent n ≡ false
      → root (with_root n made t) ≡ n
  root-with_root absent made t h = cc
  root-with_root (node o l r) made t h = refl

  -- The names after an insertion: at the path of the new network its name, elsewhere what was there.
  pub name_at-insert :
      (name : A) (n : Ipv4Network) (t : SubnetTrie A) (j ip : ℕ)
      → name_at j 0 ip (root (insert name n t)) ≡ (
          if n.prefixlen == j && same_bits n.prefixlen 0 n.network_address ip
          then some name
          else name_at j 0 ip (root t))
  unfolding insert
  name_at-insert name n t j ip =
      let ins = insert_from n.prefixlen 0 n.network_address name (root t) in
      let there = insert_from-present n.prefixlen 0 n.network_address name (root t) refl in
      rw (root-with_root ins.0 ins.1 t there)
        (name_at-insert_from n.prefixlen 0 n.network_address name (root t) j ip refl)

  -- `node_count` is the number of nodes.
  abbrev pub IsCounted : SubnetTrie A → Type 0
  IsCounted t = t.node_count ≡ size (root t)

  count-with_root :
      (n : Trie A) (made : ℕ) (t : SubnetTrie A)
      → is_absent n ≡ false
      → (with_root n made t).node_count ≡ t.node_count + made
  count-with_root absent made t h = cc
  count-with_root (node o l r) made t h = refl

  -- On a trie whose `node_count` is the number of its nodes, inserting a network keeps it so.
  pub insert-IsCounted :
      (name : A) (n : Ipv4Network) (t : SubnetTrie A) → IsCounted t → IsCounted (insert name n t)
  unfolding insert
  insert-IsCounted name n t h =
      let ins = insert_from n.prefixlen 0 n.network_address name (root t) in
      let there = insert_from-present n.prefixlen 0 n.network_address name (root t) refl in
      let sized = size-insert_from n.prefixlen 0 n.network_address name (root t) refl in
      rw (count-with_root ins.0 ins.1 t there, root-with_root ins.0 ins.1 t there)
        (omega (arith, sized, h))

pub new_trie-IsCounted : (A : Type 0) → IsCounted (new_trie {A = A})
unfolding size
new_trie-IsCounted A = refl
