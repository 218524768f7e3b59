-- ===== src/Agent.antt =====
-- internal/agent: what the agent programs on a host.
pub mod Netlink
pub mod Reconciler
pub mod Host
pub mod Upkeep
pub mod Convergence
pub mod Pass
pub mod Quiet
pub mod Calls
pub mod Kept
pub mod Loop
