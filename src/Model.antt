-- ===== src/Model.antt =====
-- internal/model: addresses, validation, policies and the records that the stores keep.
pub mod Netip
pub mod Cidr
pub mod Policy
pub mod Entities
