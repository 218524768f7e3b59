-- ===== src/Store.antt =====
-- internal/store: the in-memory stores behind the interfaces of interfaces.go.
pub mod Page
pub mod Vpcs
pub mod Peerings
pub mod Events
pub mod Routes
pub mod Postgres
