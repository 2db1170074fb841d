-- ===== src/Server/Registry/Answers.antt =====
-- The resolver of app2/dns/DnsServer.py on the state of server.py answers from the registry.
use mathlib.Core.List.{Memᴰ}
use dockermock.Prelude.{
  ◌≡◌, refl, sym, ◌∙◌, ◌≢◌, ◌↔◌, ℕ, ◌^◌, ◌<◌, Option, none, some, List, [], ◌∷◌, ◌++◌, All,
  string_eq,
}
use dockermock.Prelude.Text.{Text}
use dockermock.Dns.SubnetTrie
use dockermock.Dns.SubnetTrie.{new_trie}
use dockermock.Dns.SubnetTrie.Find.{best_match, find-best_match}
use dockermock.Dns.DnsTree.{DnsTreeNode, new_node, rsplit_generator}
use dockermock.Dns.DnsTree.Keys.{HasDistinctKeys}
use dockermock.Dns.DnsTree.Paths.{ip_at}
use dockermock.Dns.DnsTree.Collect.{mem-collect_from}
use dockermock.Dns.Resolver
use dockermock.Dns.Resolver.{host_ip, lower, ips_in}
use dockermock.Server.{Server, Request}
use dockermock.Server.Names.{resolver}
use dockermock.Server.Registry.{
  Registry, empty, lookup, serve, registry, IsRequest, Implements, empty-Implements,
  serve-Implements,
}

-- The registry has the address for a client: its network is the longest match, the address was the
-- last one given to labels that begin with those of the name with the network's name after it.
pub HasAnswer : Registry → ℕ → Text → ℕ → Type 0
HasAnswer g client_ip qname ip =
    (network : Text) × (best_match g.networks 32 client_ip ≡ some network)
    × (network ≢ [])
    × (below : List Text) × (lookup (rsplit_generator (qname ++ network) ++ below) g.names
        ≡ some ip)

-- What `ips_in` returns for the network that was found, if there is one.
mem-ips_in :
    (qname : Text) (found : Option Text) (root : DnsTreeNode ℕ) (ip : ℕ)
    → HasDistinctKeys root
    → Memᴰ ip (ips_in qname found root) ↔ (
        (network : Text) × (found ≡ some network)
        × (network ≢ [])
        × (below : List Text) × (ip_at (rsplit_generator (qname ++ network) ++ below) root
            ≡ some ip))
mem-ips_in qname none root ip keys =
    ((λ m. elim m [ ]), (λ (network, e, ne, below, at). absurd (cc)))
mem-ips_in qname (some []) root ip keys =
    ((λ m. elim m [ ]), (λ (network, e, ne, below, at). absurd (ne (cc))))
mem-ips_in qname (some (c ∷ name)) root ip keys =
    let mem = mem-collect_from (qname ++ c ∷ name) root ip keys in
    (
      (λ m. let (below, at) = mem.0 m in (c ∷ name, refl, (λ e. cc), below, at)),
      (λ (network, e, ne, below, at).
          let same : network ≡ c ∷ name = cc in mem.1 (below, rw same at at)),
    )

Implements-mem-host_ip :
    (s : Server) (g : Registry) (client_ip : ℕ) (query : Resolver.Request) (ip : ℕ)
    → Implements s g
    → client_ip < 2 ^ 32
    → query.qtype ≡ "A"
    → Memᴰ ip (host_ip client_ip query (resolver s)) ↔ HasAnswer g client_ip (lower query.qname) ip
unfolding HasAnswer
Implements-mem-host_ip s g client_ip query ip h small type =
    let found : SubnetTrie.find client_ip s.subnet_trie ≡ best_match g.networks 32 client_ip =
      rw h.networks (find-best_match g.networks client_ip h.valid small) in
    let looked_up : host_ip client_ip query (resolver s)
        ≡ ips_in (lower query.qname) (best_match g.networks 32 client_ip) s.dns_tree =
      unfold host_ip in rw (type, found) in
    let mem =
      mem-ips_in (lower query.qname) (best_match g.networks 32 client_ip) s.dns_tree ip
        h.distinct_keys in
    rw looked_up (
      (λ m.
          let (network, e, ne, below, at) = mem.0 m in
          (network, e, ne, below, sym (h.names _) ∙ at)),
      (λ (network, e, ne, below, at). mem.1 (network, e, ne, below, h.names _ ∙ at)),
    )

-- From a server with an empty trie and an empty tree, after any requests with valid subnets: a
-- client below 2 ^ 32 that asks for A records gets an address exactly when the registry that the
-- requests ask for has it for the client: its network is the longest match and was given the
-- address under labels that begin with those of the name, and no request gave them another since.
pub serve-mem-host_ip :
    (rs : List Request) (s : Server) (client_ip : ℕ) (query : Resolver.Request) (ip : ℕ)
    → s.subnet_trie ≡ new_trie
    → s.dns_tree ≡ new_node
    → All IsRequest rs
    → client_ip < 2 ^ 32
    → query.qtype ≡ "A"
    → Memᴰ ip (host_ip client_ip query (resolver (serve rs s)))
      ↔ HasAnswer (registry rs empty) client_ip (lower query.qname) ip
serve-mem-host_ip rs s client_ip query ip trie tree valid small type =
    Implements-mem-host_ip (serve rs s) (registry rs empty) client_ip query ip
      (serve-Implements rs s empty valid (empty-Implements s trie tree)) small type
