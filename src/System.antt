-- ===== src/System.antt =====
-- app2/helpers.py and app2/wrappers.py: what the jails ask of the system.
pub mod Iovec
pub mod Netmask
pub mod Mounts
pub mod Rctl
pub mod Pf
pub mod Datasets
pub mod Effect
pub mod Kernel
pub mod Interfaces
pub mod Links
pub mod Limits
mod Tests
