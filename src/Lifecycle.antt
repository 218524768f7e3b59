-- ===== src/Lifecycle.antt =====
-- The life of a peering, across the handlers of internal/api and the controller: the transitions
-- that any of them makes, and what every history of them keeps.
pub mod Change
pub mod Stored
pub mod Invariant
pub mod Handlers
pub mod Creation
pub mod Created
pub mod Control
pub mod Passes
pub mod History
pub mod Loop
pub mod Network
pub mod Tenants
pub mod Unmoved
pub mod Tenancy
pub mod Installed
pub mod Activation
pub mod Served
pub mod Uptime
pub mod Races
pub mod Fabric
pub mod Teardown
