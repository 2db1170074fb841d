-- ===== src/Manager.antt =====
-- app2/JailManager_.py: the manager of containers, networks and volumes, over its database.
pub mod Store
pub mod Containers
pub mod Networks
pub mod Subnets
pub mod Volumes
pub mod Options
pub mod Checks
pub mod Creation
pub mod Ports
pub mod Stopping
pub mod Bridges
pub mod Addressed
mod Tests
