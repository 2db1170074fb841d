-- ===== src/Server/Registry.antt =====
-- What the server promises to the containers' resolvers: a registry, which keeps the networks and
-- the names that were given to it as two lists; and that the trie and the tree of server.py answer
-- as it does. A name stands for its labels, so the registry forgets how the text was written.
pub mod Answers
use mathlib.Core.List.{Memᴰ}
use dockermock.Prelude.{
  ◌≡◌, refl, ◌∙◌, ap, ◌≢◌, ◌↔◌, ℕ, ◌^◌, ◌<◌, Option, none, some, List, [], ◌∷◌, ◌++◌, if◌then◌else◌,
  Result, ok, raise, All, arith,
}
use dockermock.Prelude.Text.{Text, paths_beq}
use dockermock.Ip.{Ipv4Network, IsNetwork}
use dockermock.Dns.SubnetTrie
use dockermock.Dns.SubnetTrie.{new_trie}
use dockermock.Dns.SubnetTrie.Find.{Table, trie_of, best_match}
use dockermock.Dns.DnsTree
use dockermock.Dns.DnsTree.{DnsTreeNode, new_node, rsplit_generator}
use dockermock.Dns.DnsTree.Keys.{HasDistinctKeys, new_node-HasDistinctKeys, assign-HasDistinctKeys}
use dockermock.Dns.DnsTree.Paths.{ip_at, ip_at-new_node, ip_at-assign}
use dockermock.Server.{
  Server, Request, list_request, status_request, start_request, exit_request, dns_request,
  subnet_request, network_request, networks_request, volumes_request, volume_request,
  remove_request, attach_request, create_request, shutdown_request, handle, add_dns, add_subnet,
}

-- The names with their addresses, the latest first.
abbrev pub Names : Type 0
Names = List (Text × ℕ)

pub record Registry : Type 0 where
  pub networks : Table Text
  pub names : Names

abbrev pub empty : Registry
empty = record { networks = []; names = [] }

-- The address that was last given to these labels.
unfoldable pub lookup : List Text → Names → Option ℕ
lookup labels [] = none
lookup labels ((name, ip) ∷ names) =
    if paths_beq (rsplit_generator name) labels then some ip else lookup labels names

abbrev pub note_name : Text → Option ℕ → Text → Registry → Registry
note_name [] ip network g = g
note_name (c ∷ domain) none network g = g
note_name (c ∷ domain) (some ip) [] g = g
note_name (c ∷ domain) (some ip) (n ∷ network) g = record {
  networks = g.networks;
  names = ((c ∷ domain) ++ b'.' ∷ n ∷ network, ip) ∷ g.names;
}

abbrev pub note_subnet : Text → Option (Result Ipv4Network) → Registry → Registry
note_subnet [] subnet g = g
note_subnet (c ∷ network) none g = g
note_subnet (c ∷ network) (some (raise e)) g = g
note_subnet (c ∷ network) (some (ok subnet)) g = record {
  networks = (c ∷ network, subnet) ∷ g.networks;
  names = g.names;
}

-- What a request asks of the registry.
abbrev pub register : Request → Registry → Registry
register (dns_request domain ip network) g = note_name domain ip network g
register (subnet_request network subnet) g = note_subnet network subnet g
register r g = g

-- Requests one after the other.
abbrev pub serve : List Request → Server → Server
serve [] s = s
serve (r ∷ rs) s = serve rs (handle r s).1

abbrev pub registry : List Request → Registry → Registry
registry [] g = g
registry (r ∷ rs) g = registry rs (register r g)

-- `IPv4Network` makes valid networks only.
abbrev pub IsParsed : Option (Result Ipv4Network) → Type 0
IsParsed none = Unit
IsParsed (some (raise e)) = Unit
IsParsed (some (ok subnet)) = IsNetwork subnet

abbrev pub IsRequest : Request → Type 0
IsRequest (subnet_request network subnet) = IsParsed subnet
IsRequest r = Unit

-- The state of the server stands for the registry.
pub record Implements (s : Server) (g : Registry) : Type 0 where
  pub networks : s.subnet_trie ≡ trie_of g.networks
  pub valid : All (λ e. IsNetwork e.1) g.networks
  pub names : (labels : List Text) → ip_at labels s.dns_tree ≡ lookup labels g.names
  pub distinct_keys : HasDistinctKeys s.dns_tree

pub empty-Implements :
    (s : Server) → s.subnet_trie ≡ new_trie → s.dns_tree ≡ new_node → Implements s empty
unfolding lookup
empty-Implements s trie tree = record {
  networks = trie;
  valid = tt;
  names = λ labels. rw tree (ip_at-new_node labels);
  distinct_keys = rw tree (new_node-HasDistinctKeys ℕ);
}

note_name-Implements :
    (domain : Text) (ip : Option ℕ) (network : Text) (s : Server) (g : Registry)
    → Implements s g
    → Implements (add_dns domain ip network s).1 (note_name domain ip network g)
unfolding add_dns DnsTree.insert lookup
note_name-Implements [] ip network s g h = h
note_name-Implements (c ∷ domain) none network s g h = h
note_name-Implements (c ∷ domain) (some ip) [] s g h = h
note_name-Implements (c ∷ domain) (some ip) (n ∷ network) s g h =
    let path = rsplit_generator ((c ∷ domain) ++ b'.' ∷ n ∷ network) in
    record {
      networks = h.networks;
      valid = h.valid;
      names = λ labels.
          ip_at-assign path labels (some ip) s.dns_tree
          ∙ ap (λ o. if paths_beq path labels then some ip else o) (h.names labels);
      distinct_keys = assign-HasDistinctKeys path (some ip) s.dns_tree h.distinct_keys;
    }

note_subnet-Implements :
    (network : Text) (subnet : Option (Result Ipv4Network)) (s : Server) (g : Registry)
    → IsParsed subnet
    → Implements s g
    → Implements (add_subnet network subnet s).1 (note_subnet network subnet g)
unfolding add_subnet
note_subnet-Implements [] subnet s g parsed h = h
note_subnet-Implements (c ∷ network) none s g parsed h = h
note_subnet-Implements (c ∷ network) (some (raise e)) s g parsed h = h
note_subnet-Implements (c ∷ network) (some (ok subnet)) s g parsed h = record {
  networks = ap (SubnetTrie.insert (c ∷ network) subnet) h.networks;
  valid = (parsed, h.valid);
  names = h.names;
  distinct_keys = h.distinct_keys;
}

-- A request that leaves the trie and the tree as they are.
kept :
    (s s' : Server) (g : Registry)
    → s'.subnet_trie ≡ s.subnet_trie
    → s'.dns_tree ≡ s.dns_tree
    → Implements s g
    → Implements s' g
kept s s' g trie tree h = record {
  networks = trie ∙ h.networks;
  valid = h.valid;
  names = λ labels. rw tree (h.names labels);
  distinct_keys = rw tree h.distinct_keys;
}

pub handle-Implements :
    (r : Request) (s : Server) (g : Registry)
    → IsRequest r
    → Implements s g
    → Implements (handle r s).1 (register r g)
unfolding handle
handle-Implements (dns_request domain ip network) s g v h =
    note_name-Implements domain ip network s g h
handle-Implements (subnet_request network subnet) s g v h =
    note_subnet-Implements network subnet s g v h
handle-Implements (list_request running) s g v h = h
handle-Implements (status_request name) s g v h = h
handle-Implements (start_request name) s g v h = kept s _ g refl refl h
handle-Implements (exit_request name code) s g v h = kept s _ g refl refl h
handle-Implements (network_request name arg) s g v h = kept s _ g refl refl h
handle-Implements networks_request s g v h = h
handle-Implements volumes_request s g v h = h
handle-Implements (volume_request none makedirs) s g v h = h
handle-Implements (volume_request (some name) makedirs) s g v h = kept s _ g refl refl h
handle-Implements (remove_request name has_jail) s g v h = h
handle-Implements (attach_request network none) s g v h = h
handle-Implements (attach_request network (some name)) s g v h = kept s _ g refl refl h
handle-Implements (create_request w r) s g v h = kept s _ g refl refl h
handle-Implements shutdown_request s g v h = kept s _ g refl refl h

-- After any requests the server stands for the registry that they ask for.
pub serve-Implements :
    (rs : List Request) (s : Server) (g : Registry)
    → All IsRequest rs
    → Implements s g
    → Implements (serve rs s) (registry rs g)
serve-Implements [] s g v h = h
serve-Implements (r ∷ rs) s g v h =
    serve-Implements rs (handle r s).1 (register r g) v.1 (handle-Implements r s g v.0 h)
