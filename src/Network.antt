-- ===== src/Network.antt =====
-- app2/network: the allocator of subnets.
pub mod Allocator
