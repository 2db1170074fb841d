-- ===== src/Server/Names.antt =====
-- A name that is registered with the server is found by the resolver.
use mathlib.Core.List.{Memᴰ}
use dockermock.Prelude.{◌≡◌, refl, ◌∙◌, ℕ, true, some, [], ◌∷◌, ◌++◌, append-nil}
use dockermock.Prelude.Text.{Text, NoDot, paths_beq, paths_beq_iff}
use dockermock.Dns.SubnetTrie
use dockermock.Dns.DnsTree
use dockermock.Dns.DnsTree.{rsplit_generator, DnsTreeNode}
use dockermock.Dns.DnsTree.Labels.{rsplit_generator-append}
use dockermock.Dns.DnsTree.Paths.{ip_at-assign}
use dockermock.Dns.Resolver
use dockermock.Dns.Resolver.{DynamicResolver, host_ip, lower}
use dockermock.Dns.Resolver.Isolation.{IsRegistered, mem-host_ip}
use dockermock.Server.{Server, add_dns}
use dockermock.Server.Invariant.{IsSound, add_dns-IsSound}

-- The resolver that the server starts on its trie and its tree.
abbrev pub resolver : Server → DynamicResolver ℕ
resolver s = record { trie = s.subnet_trie; dnstree = s.dns_tree }

added_name :
    (domain network : Text) (ip : ℕ) (root : DnsTreeNode ℕ)
    → NoDot network
    → IsRegistered network domain (DnsTree.insert (domain ++ b'.' ∷ network) ip root) ip
unfolding IsRegistered DnsTree.insert
added_name domain network ip root plain =
    let labels = rsplit_generator-append domain network plain in
    let path = network ∷ rsplit_generator domain in
    let same : paths_beq path path ≡ true = (paths_beq_iff path path).1 refl in
    (
      [],
      rw (append-nil (rsplit_generator domain), labels)
          (ip_at-assign path path (some ip) root ∙ rw same),
    )

-- On a sound server: once a name with its address has been added under a network whose name has no
-- dot, a client in that network that asks for the A records of the full name finds the address.
pub add_dns-host_ip :
    (d n : ℕ) (domain network : Text) (ip client_ip : ℕ) (request : Resolver.Request) (s : Server)
    → IsSound s
    → NoDot (n ∷ network)
    → request.qtype ≡ "A"
    → lower request.qname ≡ (d ∷ domain) ++ b'.' ∷ []
    → SubnetTrie.find client_ip s.subnet_trie ≡ some (n ∷ network)
    → Memᴰ ip
        (host_ip client_ip request (resolver (add_dns (d ∷ domain) (some ip) (n ∷ network) s).1))
add_dns-host_ip d n domain network ip client_ip request s h plain type full found =
    let after = (add_dns (d ∷ domain) (some ip) (n ∷ network) s).1 in
    let sound = add_dns-IsSound (d ∷ domain) (some ip) (n ∷ network) s h in
    let trie_kept : SubnetTrie.find client_ip after.subnet_trie ≡ some (n ∷ network) =
      unfold add_dns in found in
    let registered : IsRegistered (n ∷ network) (d ∷ domain) after.dns_tree ip =
      unfold add_dns in added_name (d ∷ domain) (n ∷ network) ip s.dns_tree plain in
    (mem-host_ip (resolver after) request client_ip (d ∷ domain) (n ∷ network) ip
        sound.distinct_keys type full trie_kept plain (λ e. cc)).1
      registered
