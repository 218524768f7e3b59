-- ===== src/Bgp.antt =====
-- internal/bgp: the EVPN control plane.
pub mod Evpn
pub mod Service
pub mod Laws
pub mod Stale
