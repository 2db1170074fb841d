-- ===== src/Dns/DnsTree/Tests.antt =====
-- Runs of the tree, and its theorems there.
use mathlib.Core.List.{Memᴰ}
use dockermock.Prelude.{◌≡◌, ◌↔◌, refl, List, [], ◌∷◌, ◌++◌, ℕ, some, if◌then◌else◌, arith}
use dockermock.Prelude.Text.{codes, Text, paths_beq}
use dockermock.Dns.DnsTree.{DnsTreeNode, rsplit_generator, new_node, assign, insert, collect_from}
use dockermock.Dns.DnsTree.Labels.{rsplit_generator-dotted, dotted}
use dockermock.Dns.DnsTree.Paths.{ip_at, ip_at-assign}
use dockermock.Dns.DnsTree.Collect.{mem-collect_from}
use dockermock.Dns.DnsTree.Keys.{HasDistinctKeys, new_node-HasDistinctKeys, assign-HasDistinctKeys}

rsplit_runs :
    (rsplit_generator (codes "www.example.com") ≡ codes "com" ∷ codes "example" ∷ codes "www" ∷ [])
    × (rsplit_generator (codes ".b") ≡ codes "b" ∷ [])
    × (rsplit_generator (codes "a.") ≡ codes "" ∷ codes "a" ∷ [])
    × (rsplit_generator (codes "") ≡ [])
unfolding rsplit_generator
rsplit_runs = (refl, refl, refl, refl)

abbrev kafka : DnsTreeNode ℕ
kafka =
    insert (codes "3.redis") 3 (insert (codes "2.kafka") 2 (insert (codes "1.kafka") 1 new_node))

collect_runs :
    (collect_from (codes "kafka") kafka ≡ 1 ∷ 2 ∷ []) × (collect_from (codes "9.kafka") kafka ≡ [])
unfolding collect_from insert
collect_runs = (refl, refl)

-- The labels of www.example.com
abbrev www : List Text
www = codes "com" ∷ codes "example" ∷ codes "www" ∷ []

rsplit_generator-dotted_example : rsplit_generator (dotted www) ≡ www
rsplit_generator-dotted_example = rsplit_generator-dotted www (ground arith)

abbrev one : DnsTreeNode ℕ
one = assign www (some 1) new_node

one-HasDistinctKeys : HasDistinctKeys one
one-HasDistinctKeys = assign-HasDistinctKeys www (some 1) new_node (new_node-HasDistinctKeys ℕ)

abbrev mail : List Text
mail = codes "com" ∷ codes "example" ∷ codes "mail" ∷ []

ip_at-assign_example :
    ip_at www (assign mail (some 2) one) ≡ (if paths_beq mail www then some 2 else ip_at www one)
ip_at-assign_example = ip_at-assign mail www (some 2) one

mem-collect_from_example :
    Memᴰ 1 (collect_from (codes "example.com") one)
    ↔ ((qs : List Text) × (ip_at (rsplit_generator (codes "example.com") ++ qs) one ≡ some 1))
mem-collect_from_example = mem-collect_from (codes "example.com") one 1 one-HasDistinctKeys
