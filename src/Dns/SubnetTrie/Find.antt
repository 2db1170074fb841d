-- ===== src/Dns/SubnetTrie/Find.antt =====
-- `find` is longest-prefix match over the networks that were inserted, but for prefix length 0.
use dockermock.Prelude.{
  ℕ, zero, suc, ◌+◌, ◌^◌, ◌<◌, ◌≡◌, refl, true, false, ◌&&◌, Option, none, some, List, [], ◌∷◌,
  if◌then◌else◌, ◌==◌, nat_eq, arith, or_else, or_else-none, or_else_assoc, All, inl, inr,
  Bool-cases, Bool-eq_of_iff, ◌∙◌, ap, sym,
}
use dockermock.Ip.{Ipv4Network, IsNetwork, contains}
use dockermock.Dns.SubnetTrie.{
  Trie, absent, node, SubnetTrie, get_bit, root, child, new_trie, insert, name_of, is_absent,
  find_from, find,
}
use dockermock.Dns.SubnetTrie.Bits.{same_bits, same_bits-contains}
use dockermock.Dns.SubnetTrie.Insert.{name_at, name_at-suc, name_at-absent, name_at-insert}

-- The networks that were inserted, the latest first.
abbrev pub Table : Type 0 → Type 0
Table A = List (A × Ipv4Network)

module _ {A : Type 0} where
  -- The name at the greatest depth from 1 to k on the path of `ip`.
  longest : ℕ → ℕ → ℕ → Trie A → Option A
  longest zero i ip n = none
  longest (suc k) i ip n = or_else (name_at (suc k) i ip n) (longest k i ip n)

  longest-suc :
      (k i ip : ℕ) (n : Trie A)
      → longest (suc k) i ip n
        ≡ or_else (longest k (i + 1) ip (child (get_bit ip i) n)) (name_of (child (get_bit ip i) n))
  unfolding longest
  longest-suc zero i ip n = unfold name_at in or_else-none (name_of (child (get_bit ip i) n))
  longest-suc (suc k) i ip n =
      let c = child (get_bit ip i) n in
      rw (or_else_assoc (name_at (suc k) (i + 1) ip c) (longest k (i + 1) ip c) (name_of c))
        (rw (← longest-suc k i ip n, name_at-suc (suc k) i ip n))

  longest-absent : (k i ip : ℕ) → longest k i ip absent ≡ none
  unfolding longest
  longest-absent zero i ip = refl
  longest-absent (suc k) i ip = rw (name_at-absent (suc k) i ip, longest-absent k i ip)

  absent_of_is_absent : (n : Trie A) → is_absent n ≡ true → n ≡ absent
  absent_of_is_absent absent h = refl
  absent_of_is_absent (node o l r) h = cc

  -- The loop keeps the deepest name that it has passed.
  find_from-longest :
      (k i ip : ℕ) (n : Trie A) (last : Option A)
      → find_from k i ip n last ≡ or_else (longest k i ip n) last
  unfolding find_from
  find_from-longest zero i ip n last = unfold longest in refl
  find_from-longest (suc k) i ip n last =
      let c = child (get_bit ip i) n in
      rw (longest-suc k i ip n, or_else_assoc (longest k (i + 1) ip c) (name_of c) last)
        (elim (Bool-cases (is_absent c)) [
          | inl gone ↦ rw (absent_of_is_absent c gone, longest-absent k (i + 1) ip)
          | inr there ↦ rw there (find_from-longest k (i + 1) ip c (or_else (name_of c) last))
        ])

  abbrev pub trie_of : Table A → SubnetTrie A
  trie_of [] = new_trie
  trie_of ((name, n) ∷ t) = insert name n (trie_of t)

  -- The latest name of a network of prefix length k that contains the address.
  pub named : Table A → ℕ → ℕ → Option A
  named [] k ip = none
  named ((name, n) ∷ t) k ip = if n.prefixlen == k && contains n ip then some name else named t k ip

  -- Longest-prefix match, over the lengths from k down to 1.
  pub best_match : Table A → ℕ → ℕ → Option A
  best_match t zero ip = none
  best_match t (suc k) ip = or_else (named t (suc k) ip) (best_match t k ip)

  name_at-new_trie : (k ip : ℕ) → name_at k 0 ip (root (new_trie {A = A})) ≡ none
  unfolding name_at
  name_at-new_trie zero ip = refl
  name_at-new_trie (suc k) ip = ground (arith, name_at-absent {A = A} k 1 ip)

  name_at-trie_of :
      (t : Table A) (k ip : ℕ)
      → All (λ e. IsNetwork e.1) t
      → ip < 2 ^ 32
      → 0 < k
      → name_at k 0 ip (root (trie_of t)) ≡ named t k ip
  unfolding named
  name_at-trie_of [] k ip h small pos = name_at-new_trie k ip
  name_at-trie_of ((name, n) ∷ t) k ip h small pos =
      rw (name_at-insert name n (trie_of t) k ip)
        (rw (name_at-trie_of t k ip h.1 small pos, same) refl)
    where
      same : same_bits n.prefixlen 0 n.network_address ip ≡ contains n ip
      same = Bool-eq_of_iff _ _ (same_bits-contains n ip h.0 small)

  longest-best_match :
      (t : Table A) (k ip : ℕ)
      → All (λ e. IsNetwork e.1) t
      → ip < 2 ^ 32
      → longest k 0 ip (root (trie_of t)) ≡ best_match t k ip
  unfolding longest best_match
  longest-best_match t zero ip h small = refl
  longest-best_match t (suc k) ip h small =
      rw (name_at-trie_of t (suc k) ip h small (omega arith), longest-best_match t k ip h small)

  -- After any insertions of valid networks, and for an address below 2 ^ 32, `find` gives the name of the network of the greatest prefix
  -- length from 32 down to 1 that contains the address, the latest of that length, and none if no
  -- such network contains it.
  pub find-best_match :
      (t : Table A) (ip : ℕ)
      → All (λ e. IsNetwork e.1) t
      → ip < 2 ^ 32
      → find ip (trie_of t) ≡ best_match t 32 ip
  unfolding find
  find-best_match t ip h small =
      find_from-longest 32 0 ip (root (trie_of t)) none
      ∙ or_else-none (longest 32 0 ip (root (trie_of t)))
      ∙ longest-best_match t 32 ip h small

  longest-insert_default :
      (k ip : ℕ) (name : A) (n : Ipv4Network) (t : SubnetTrie A)
      → n.prefixlen ≡ 0
      → longest k 0 ip (root (insert name n t)) ≡ longest k 0 ip (root t)
  unfolding longest
  longest-insert_default zero ip name n t h = refl
  longest-insert_default (suc k) ip name n t h =
      let other : (n.prefixlen == suc k) ≡ false = ground arith in
      rw (longest-insert_default k ip name n t h, name_at-insert name n t (suc k) ip) (rw other)

  -- Inserting a network of prefix length 0 changes no lookup: the name is stored at the root, which
  -- `find` never reads.
  pub find-insert_default :
      (name : A) (n : Ipv4Network) (t : SubnetTrie A) (ip : ℕ)
      → n.prefixlen ≡ 0
      → find ip (insert name n t) ≡ find ip t
  unfolding find
  find-insert_default name n t ip h =
      find_from-longest 32 0 ip (root (insert name n t)) none
      ∙ ap (λ o. or_else o none) (longest-insert_default 32 ip name n t h)
      ∙ sym (find_from-longest 32 0 ip (root t) none)
