-- ===== src/Dns/Resolver/Tests.antt =====
-- Runs of the resolver on two networks that hold the same name, and its theorems there.
use mathlib.Core.List.{Memᴰ}
use dockermock.Prelude.{
  ◌≡◌, refl, [], ◌∷◌, ℕ, Option, none, some, arith, ◌↔◌, nat_beq, if◌then◌else◌,
}
use dockermock.Prelude.Text.{codes}
use dockermock.Dns.SubnetTrie
use dockermock.Dns.SubnetTrie.{new_trie}
use dockermock.Dns.DnsTree
use dockermock.Dns.DnsTree.{new_node, collect_from, rsplit_generator}
use dockermock.Dns.DnsTree.Keys.{HasDistinctKeys, assign-HasDistinctKeys, new_node-HasDistinctKeys}
use dockermock.Dns.Resolver.{DynamicResolver, Request, resolve, host_ip, answered, forwarded, rr}
use dockermock.Dns.Resolver.Isolation.{IsRegistered, mem-host_ip}
use dockermock.Dns.Resolver.Fallback.{resolve-forwarded}

-- `db` has the address 7 in the network `a` (10.0.1.0/24) and 8 in the network `b` (10.0.2.0/24).
abbrev two_networks : DynamicResolver ℕ
two_networks = record {
  trie =
      SubnetTrie.insert (codes "b") (record { network_address = 167772672; prefixlen = 24 })
        (SubnetTrie.insert (codes "a") (record { network_address = 167772416; prefixlen = 24 })
          new_trie);
  dnstree = DnsTree.insert (codes "db.b") 8 (DnsTree.insert (codes "db.a") 7 new_node);
}

abbrev db_query : Request
db_query = record { qname = codes "DB."; qtype = "A" }

abbrev other_query : Request
other_query = record { qname = codes "web."; qtype = "A" }

-- The second of two forwarders answers.
abbrev second_answers : ℕ → Option ℕ
second_answers f = if nat_beq f 2 then some 99 else none

-- A client of `a`, one of `b`, and one of no network.
resolve_runs :
    (resolve second_answers [] 167772417 db_query two_networks ≡ answered (rr (codes "db.") 7 ∷ []))
    × (resolve second_answers [] 167772673 db_query two_networks
        ≡ answered (rr (codes "db.") 8 ∷ []))
    × (resolve second_answers (1 ∷ 2 ∷ []) 5 db_query two_networks ≡ forwarded 99)
unfolding resolve collect_from SubnetTrie.find SubnetTrie.insert DnsTree.insert
resolve_runs = (refl, refl, refl)

two_networks-HasDistinctKeys : HasDistinctKeys two_networks.dnstree
unfolding DnsTree.insert
two_networks-HasDistinctKeys =
    assign-HasDistinctKeys (rsplit_generator (codes "db.b")) (some 8)
      (DnsTree.insert (codes "db.a") 7 new_node)
      (assign-HasDistinctKeys (rsplit_generator (codes "db.a")) (some 7) new_node
        (new_node-HasDistinctKeys ℕ))

found_in_a : SubnetTrie.find 167772417 two_networks.trie ≡ some (codes "a")
unfolding SubnetTrie.find SubnetTrie.insert
found_in_a = refl

mem-host_ip_example :
    Memᴰ 7 (host_ip 167772417 db_query two_networks)
    ↔ IsRegistered (codes "a") (codes "db") two_networks.dnstree 7
mem-host_ip_example =
    mem-host_ip two_networks db_query 167772417 (codes "db") (codes "a") 7
      two_networks-HasDistinctKeys refl refl found_in_a ((λ e. omega (arith, e)), tt) (λ e. cc)

nothing_for_web : host_ip 167772417 other_query two_networks ≡ []
unfolding host_ip collect_from SubnetTrie.find SubnetTrie.insert DnsTree.insert
nothing_for_web = refl

resolve-forwarded_example :
    resolve second_answers (1 ∷ 2 ∷ []) 167772417 other_query two_networks ≡ forwarded 99
resolve-forwarded_example =
    resolve-forwarded second_answers (1 ∷ []) [] 2 99 167772417 other_query two_networks
      nothing_for_web (refl, tt) refl
