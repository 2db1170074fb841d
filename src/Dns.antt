-- ===== src/Dns.antt =====
-- app2/dns: the DNS of the containers.
pub mod SubnetTrie
pub mod DnsTree
pub mod Resolver
