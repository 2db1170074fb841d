-- ===== src/Server/Tests.antt =====
-- A day of the server: requests, the resolver beside it, and the theorems there.
use mathlib.Core.List.{Memᴰ}
use dockermock.Prelude.{◌≡◌, ◌↔◌, refl, ℕ, none, some, List, [], ◌∷◌, ok, raise, value_error, arith}
use dockermock.Prelude.Text.{codes, Text}
use dockermock.Ip.{Ipv4Network, IsNetwork}
use dockermock.Network.Allocator.{default_allocator}
use dockermock.Dns.SubnetTrie
use dockermock.Dns.SubnetTrie.{new_trie}
use dockermock.Dns.SubnetTrie.Insert.{new_trie-IsCounted}
use dockermock.Dns.DnsTree
use dockermock.Dns.DnsTree.{new_node, rsplit_generator, collect_from}
use dockermock.Dns.DnsTree.Keys.{new_node-HasDistinctKeys}
use dockermock.Dns.Resolver
use dockermock.Dns.Resolver.{host_ip}
use dockermock.Manager.Store.{Tables, fetchone}
use dockermock.Manager.Containers.{JailManager, connected, start_jail}
use dockermock.Manager.Networks.Distinct.{
  IsAddressed, IsAddressedIn, IsNumbered, IsDistinct, HasDistinctAddresses,
}
use dockermock.Manager.Volumes.{volume_named}
use dockermock.Server.{
  Server, Request, reply, handle, add_dns, add_subnet, message, dns_request, subnet_request,
  start_request,
}
use dockermock.Server.Invariant.{IsSound, here, step, handle-IsSound, Reaches-IsSound}
use dockermock.Server.Names.{resolver, add_dns-host_ip}
use dockermock.Server.Registry.{serve, registry, empty, lookup}
use dockermock.Server.Registry.Answers.{HasAnswer, serve-mem-host_ip}

abbrev tables : Tables
tables = record {
  containers =
      record {
        id = 1;
        name = codes "web";
        image_id = 1;
        status = "created";
        config_json = codes "{}";
        gid = codes "0a";
      }
      ∷ [];
  networks = [];
  allocated_subnets = [];
  container_networks = [];
  volumes = [];
  volume_containers = [];
  container_seq = 1;
  network_seq = 0;
  volume_seq = 0;
}

abbrev manager : JailManager
manager = record {
  store = record { current = tables; committed = tables };
  subnetallocator = default_allocator;
  worker = connected [];
}

-- The server as it starts.
abbrev server : Server
server = record { manager = manager; subnet_trie = new_trie; dns_tree = new_node }

-- 10.0.1.0/24
abbrev net_a : Ipv4Network
net_a = record { network_address = 167772416; prefixlen = 24 }

abbrev with_a : Server
with_a = (handle (subnet_request (codes "a") (some (ok net_a))) server).1

abbrev db_query : Resolver.Request
db_query = record { qname = codes "db."; qtype = "A" }

responses :
    ((handle (start_request (codes "web")) server).0 ≡ reply 200 (message "running"))
    × ((handle (dns_request (codes "db") none (codes "a")) server).0.status ≡ 400)
    × ((handle (subnet_request (codes "a") (some (raise value_error))) server).0.status ≡ 500)
unfolding handle add_dns add_subnet start_jail fetchone
responses = (refl, refl, refl)

host_ip_run :
    host_ip 167772417 db_query (resolver (add_dns (codes "db") (some 7) (codes "a") with_a).1)
    ≡ 7 ∷ []
unfolding handle host_ip add_dns add_subnet SubnetTrie.insert SubnetTrie.find DnsTree.insert
    collect_from
host_ip_run = refl

server-IsSound : IsSound server
server-IsSound = record {
  distinct_keys = new_node-HasDistinctKeys ℕ;
  counted = new_trie-IsCounted Text;
  addressed =
      unfold IsAddressed IsAddressedIn HasDistinctAddresses IsNumbered IsDistinct in
      ((tt, (tt, tt)), (tt, (tt, tt)));
}

with_a-IsSound : IsSound with_a
with_a-IsSound = handle-IsSound (subnet_request (codes "a") (some (ok net_a))) server server-IsSound

-- A network, and then a name in it.
abbrev with_db : Server
with_db = (handle (dns_request (codes "db") (some 7) (codes "a")) with_a).1

Reaches-IsSound_example : IsSound with_db
Reaches-IsSound_example =
    Reaches-IsSound server with_db
      (step (subnet_request (codes "a") (some (ok net_a))) server with_db
        (step (dns_request (codes "db") (some 7) (codes "a")) with_a with_db (here with_db)))
      server-IsSound

found_in_a : SubnetTrie.find 167772417 with_a.subnet_trie ≡ some (codes "a")
unfolding handle add_subnet SubnetTrie.find SubnetTrie.insert
found_in_a = refl

add_dns-host_ip_example :
    Memᴰ 7
      (host_ip 167772417 db_query (resolver (add_dns (codes "db") (some 7) (codes "a") with_a).1))
add_dns-host_ip_example =
    add_dns-host_ip b'd' b'a' (codes "b") [] 7 167772417 db_query with_a with_a-IsSound
      ((λ e. omega (arith, e)), tt) refl refl found_in_a

no_volume : fetchone (volume_named (codes "data")) tables.volumes ≡ none
unfolding fetchone
no_volume = refl

net_a-IsNetwork : IsNetwork net_a
net_a-IsNetwork = record { short = omega arith; aligned = omega arith; bounded = omega arith }

-- A network, a name in it, and another address for the name.
abbrev moved : List Request
moved =
    subnet_request (codes "a") (some (ok net_a))
    ∷ dns_request (codes "db") (some 7) (codes "a")
    ∷ dns_request (codes "db") (some 8) (codes "a")
    ∷ []

latest_only :
    (lookup (rsplit_generator (codes "db.a")) (registry moved empty).names ≡ some 8)
    × (host_ip 167772417 db_query (resolver (serve moved server)) ≡ 8 ∷ [])
unfolding lookup handle host_ip add_dns add_subnet SubnetTrie.insert SubnetTrie.find DnsTree.insert
    collect_from rsplit_generator
latest_only = (refl, refl)

serve-mem-host_ip_example :
    Memᴰ 8 (host_ip 167772417 db_query (resolver (serve moved server)))
    ↔ HasAnswer (registry moved empty) 167772417 (codes "db.") 8
serve-mem-host_ip_example =
    serve-mem-host_ip moved server 167772417 db_query 8 refl refl (net_a-IsNetwork, (tt, (tt, tt)))
      (omega arith) refl
