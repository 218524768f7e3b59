-- ===== src/Tests.antt =====
-- Concrete runs: the theorems applied to inputs that exercise the code.
pub mod Data
pub mod Addresses
pub mod Pools
pub mod Fabrics
pub mod Histories
pub mod Headers
pub mod Hosts
pub mod Limits
pub mod Databases
pub mod Columns
pub mod VpcTables
pub mod PeeringTables
pub mod EventTables
pub mod Loops
pub mod Servers
pub mod Views
pub mod Teardowns
