-- ===== src/Dns/SubnetTrie/Tests.antt =====
-- Runs of the trie, and the theorems at concrete networks.
use dockermock.Prelude.{ℕ, ◌≡◌, refl, some, none, [], ◌∷◌, arith, if◌then◌else◌, nat_beq, ◌&&◌}
use dockermock.Ip.{Ipv4Network}
use dockermock.Dns.SubnetTrie.{new_trie, insert, find, root}
use dockermock.Dns.SubnetTrie.Bits.{same_bits}
use dockermock.Dns.SubnetTrie.Insert.{name_at, name_at-insert}
use dockermock.Dns.SubnetTrie.Find.{Table, trie_of, best_match, find-best_match}

-- 10.0.0.0/16 under the name 1, 10.0.1.0/24 under 2, 0.0.0.0/0 under 3
abbrev wide : Ipv4Network
wide = record { network_address = 167772160; prefixlen = 16 }

abbrev narrow : Ipv4Network
narrow = record { network_address = 167772416; prefixlen = 24 }

abbrev everything : Ipv4Network
everything = record { network_address = 0; prefixlen = 0 }

abbrev table : Table ℕ
table = (1, wide) ∷ (2, narrow) ∷ []

find_runs :
    (find 167772417 (trie_of table) ≡ some 2)
    × (find 167772161 (trie_of table) ≡ some 1)
    × (find 5 (trie_of table) ≡ none)
unfolding find insert
find_runs = (refl, refl, refl)

find_default_run : find 5 (insert {A = ℕ} 3 everything new_trie) ≡ none
unfolding find insert
find_default_run = refl

find-best_match_example : find 167772417 (trie_of table) ≡ best_match table 32 167772417
find-best_match_example = find-best_match table 167772417 (omega arith) (omega arith)

name_at-insert_example :
    name_at {A = ℕ} 24 0 167772417 (root (insert 2 narrow (insert 1 wide new_trie))) ≡ (
      if nat_beq 24 24 && same_bits 24 0 167772416 167772417
      then some 2
      else name_at {A = ℕ} 24 0 167772417 (root (insert 1 wide new_trie)))
name_at-insert_example = name_at-insert 2 narrow (insert 1 wide new_trie) 24 167772417
