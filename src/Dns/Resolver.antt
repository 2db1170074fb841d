-- ===== src/Dns/Resolver.antt =====
-- app2/dns/DnsServer.py: the resolver that answers the containers' queries.
-- The packets and the sockets of dnslib are parameters: what the exchange with a forwarder returns.
pub mod Isolation
pub mod Fallback
mod Tests
use Prim.Native.String.{String}
use dockermock.Prelude.{
  ℕ, ◌+◌, ◌&&◌, Bool, true, false, Option, none, some, List, [], ◌∷◌, ◌++◌, map, if◌then◌else◌,
  ◌==◌, string_eq, leb, arith,
}
use dockermock.Prelude.Text.{Text}
use dockermock.Ip.{Ipv4Network}
use dockermock.Dns.SubnetTrie
use dockermock.Dns.SubnetTrie.{SubnetTrie}
use dockermock.Dns.DnsTree.{DnsTreeNode, collect_from}

-- An answer: RR(qname, QTYPE.A, rdata=A(ip), ttl=300)
pub record Rr (A : Type 0) : Type 0 where
  pub rname : Text
  pub rdata : A
  pub ttl : ℕ

-- A query: request.q
pub record Request : Type 0 where
  pub qname : Text
  pub qtype : String

-- What `resolve` returns: the reply to the request with answers, or a forwarder's record.
pub data Reply (A : Type 0) (R : Type 0) : Type 0 where
  answered : List (Rr A) → Reply A R
  forwarded : R → Reply A R

pub record DynamicResolver (A : Type 0) : Type 0 where
  pub trie : SubnetTrie Text
  pub dnstree : DnsTreeNode A

-- str.lower on the characters of a domain name, which dnslib writes in ASCII
abbrev lower_char : ℕ → ℕ
lower_char c = if leb b'A' c && leb c b'Z' then c + 32 else c

abbrev pub lower : Text → Text
lower s = map lower_char s

module _ {A : Type 0} where
  unfoldable pub add_network : Text → Ipv4Network → DynamicResolver A → DynamicResolver A
  unfolding SubnetTrie.insert
  add_network name subnet r = record {
    trie = SubnetTrie.insert name subnet r.trie;
    dnstree = r.dnstree;
  }

  abbrev pub rr : Text → A → Rr A
  rr qname ip = record { rname = qname; rdata = ip; ttl = 300 }

  -- The addresses that are registered under the client's network, if the query asks for them: an
  -- empty name and an empty list count as false.
  abbrev pub ips_in : Text → Option Text → DnsTreeNode A → List A
  ips_in qname none dnstree = []
  ips_in qname (some []) dnstree = []
  ips_in qname (some (c ∷ network_name)) dnstree = collect_from (qname ++ c ∷ network_name) dnstree

  unfoldable pub host_ip : ℕ → Request → DynamicResolver A → List A
  host_ip client_ip request r =
      if request.qtype == "A"
      then ips_in (lower request.qname) (SubnetTrie.find client_ip r.trie) r.dnstree
      else []

-- The loop over `system_resolvers`: `ask` is what the exchange with one of them returns, nothing
-- if it raises.
pub forward_from : {F R A : Type 0} → (F → Option R) → List F → Reply A R
forward_from ask [] = answered []
forward_from ask (forwarder ∷ forwarders) = elim (ask forwarder) [
  | none ↦ forward_from ask forwarders
  | some record_back ↦ forwarded record_back
]

abbrev pub answer_or : {A R : Type 0} → Text → List A → Reply A R → Reply A R
answer_or qname [] otherwise = otherwise
answer_or qname (ip ∷ ips) otherwise = answered (map (rr qname) (ip ∷ ips))

unfoldable pub resolve :
    {F R A : Type 0} → (F → Option R) → List F → ℕ → Request → DynamicResolver A → Reply A R
unfolding forward_from host_ip
resolve ask system_resolvers client_ip request r =
    answer_or (lower request.qname) (host_ip client_ip request r)
      (forward_from ask system_resolvers)
