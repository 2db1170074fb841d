-- ===== src/Dns/SubnetTrie.antt =====
-- app2/dns/SubnetTrie.py: a binary trie over the leading bits of an address.
pub mod Bits
pub mod Insert
pub mod Find
mod Tests
use dockermock.Prelude.{
  ℕ, zero, suc, ◌+◌, ◌-◌, ◌/◌, ◌%◌, ◌^◌, Bool, true, false, Option, none, some, if◌then◌else◌, ◌==◌,
  nat_eq, or_else,
}
use dockermock.Ip.{Ipv4Network}

-- A `TrieNode` or `None`: the network name, then the children for bit 0 and bit 1.
pub data Trie (A : Type 0) : Type 0 where
  absent : Trie A
  node : Option A → Trie A → Trie A → Trie A

-- `self.root` is always a node.
pub record SubnetTrie (A : Type 0) : Type 0 where
  pub network_name : Option A
  pub left : Trie A
  pub right : Trie A
  pub node_count : ℕ

-- ip_int >> (31 - bit_index) & 1
unfoldable pub get_bit : ℕ → ℕ → ℕ
get_bit ip_int bit_index = ip_int / 2 ^ (31 - bit_index) % 2

module _ {A : Type 0} where
  abbrev pub new_trie : SubnetTrie A
  new_trie = record { network_name = none; left = absent; right = absent; node_count = 1 }

  abbrev pub root : SubnetTrie A → Trie A
  root t = node t.network_name t.left t.right

  -- `if node.children[bit] is None: node.children[bit] = TrieNode()`
  abbrev pub present : Trie A → Trie A
  present absent = node none absent absent
  present (node o l r) = node o l r

  -- 1 where the test above creates a node
  abbrev pub created : Trie A → ℕ
  created absent = 1
  created (node o l r) = 0

  abbrev pub child : ℕ → Trie A → Trie A
  child bit absent = absent
  child bit (node o l r) = if bit == 0 then l else r

  abbrev pub set_child : ℕ → Trie A → Trie A → Trie A
  set_child bit c absent = absent
  set_child bit c (node o l r) = if bit == 0 then node o c r else node o l c

  abbrev pub set_name : A → Trie A → Trie A
  set_name name absent = absent
  set_name name (node o l r) = node (some name) l r

  -- The loop of `insert` from `bit_index` on, with `rounds` bits left; the last statement sets the
  -- name of the node that it ends at. The number counts the nodes that were created.
  pub insert_from : ℕ → ℕ → ℕ → A → Trie A → Trie A × ℕ
  insert_from zero bit_index ip_int name n = (set_name name n, 0)
  insert_from (suc rounds) bit_index ip_int name n =
      let bit = get_bit ip_int bit_index in
      let c = child bit n in
      let (c', made) = insert_from rounds (bit_index + 1) ip_int name (present c) in
      (set_child bit c' n, created c + made)

  -- The trie with a root given as a node.
  abbrev pub with_root : Trie A → ℕ → SubnetTrie A → SubnetTrie A
  with_root absent made t = t
  with_root (node o l r) made t = record {
    network_name = o;
    left = l;
    right = r;
    node_count = t.node_count + made;
  }

  unfoldable pub insert : A → Ipv4Network → SubnetTrie A → SubnetTrie A
  unfolding insert_from get_bit
  insert network_name subnet t =
      let (r, made) = insert_from subnet.prefixlen 0 subnet.network_address network_name (root t) in
      with_root r made t

  abbrev pub is_absent : Trie A → Bool
  is_absent absent = true
  is_absent (node o l r) = false

  abbrev pub name_of : Trie A → Option A
  name_of absent = none
  name_of (node o l r) = o

  -- The loop of `find` from `bit_index` on, with `rounds` rounds left.
  pub find_from : ℕ → ℕ → ℕ → Trie A → Option A → Option A
  find_from zero bit_index ip_int n last_found = last_found
  find_from (suc rounds) bit_index ip_int n last_found =
      let c = child (get_bit ip_int bit_index) n in
      let rest = find_from rounds (bit_index + 1) ip_int c (or_else (name_of c) last_found) in
      if is_absent c then last_found else rest

  unfoldable pub find : ℕ → SubnetTrie A → Option A
  unfolding find_from get_bit
  find ip_int t = find_from 32 0 ip_int (root t) none
