-- ===== src/Dns/Resolver/Isolation.antt =====
-- What a container may learn from the resolver: the addresses of its own network.
use mathlib.Core.List.{Memᴰ}
use dockermock.Prelude.{◌≡◌, refl, ◌↔◌, ◌≢◌, ℕ, some, List, [], ◌∷◌, ◌++◌, append_assoc, string_eq}
use dockermock.Prelude.Text.{Text, NoDot}
use dockermock.Dns.SubnetTrie
use dockermock.Dns.DnsTree.{DnsTreeNode, rsplit_generator, collect_from}
use dockermock.Dns.DnsTree.Labels.{rsplit_generator-append}
use dockermock.Dns.DnsTree.Paths.{ip_at}
use dockermock.Dns.DnsTree.Keys.{HasDistinctKeys}
use dockermock.Dns.DnsTree.Collect.{mem-collect_from}
use dockermock.Dns.Resolver.{DynamicResolver, Request, lower, host_ip}

module _ {A : Type 0} where
  -- The address stands under the network, at the domain or below it.
  unfoldable pub IsRegistered : Text → Text → DnsTreeNode A → A → Type 0
  IsRegistered network_name domain root ip =
      (qs : List Text) × (ip_at (network_name ∷ (rsplit_generator domain ++ qs)) root ≡ some ip)

  -- On a tree with distinct keys: where the client's address lies in a network whose name has no
  -- dot and is not empty, an A query for a full name `domain.` finds an address exactly when it is
  -- registered under that network at the domain or below it.
  pub mem-host_ip :
      (r : DynamicResolver A) (request : Request) (client_ip : ℕ) (domain network_name : Text)
      (ip : A)
      → HasDistinctKeys r.dnstree
      → request.qtype ≡ "A"
      → lower request.qname ≡ domain ++ b'.' ∷ []
      → SubnetTrie.find client_ip r.trie ≡ some network_name
      → NoDot network_name
      → network_name ≢ []
      → Memᴰ ip (host_ip client_ip request r) ↔ IsRegistered network_name domain r.dnstree ip
  unfolding IsRegistered
  mem-host_ip r request client_ip domain [] ip keys type full found plain ne = absurd (ne refl)
  mem-host_ip r request client_ip domain (c ∷ name) ip keys type full found plain ne =
      let whole : lower request.qname ++ c ∷ name ≡ domain ++ b'.' ∷ c ∷ name =
        rw full (append_assoc domain (b'.' ∷ []) (c ∷ name)) in
      let labels = rsplit_generator-append domain (c ∷ name) plain in
      let looked_up : host_ip client_ip request r
          ≡ collect_from (domain ++ b'.' ∷ c ∷ name) r.dnstree =
        unfold host_ip in rw (type, found, whole) in
      let mem = mem-collect_from (domain ++ b'.' ∷ c ∷ name) r.dnstree ip keys in
      rw looked_up (rw labels at mem)
