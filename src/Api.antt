-- ===== src/Api.antt =====
-- internal/api: the HTTP handlers over the stores.
pub mod Db
pub mod Act
pub mod VpcHandler
pub mod PeeringHandler
pub mod Queries
pub mod Settled
pub mod Render
pub mod Effective
pub mod Visible
pub mod Answers
pub mod Router
pub mod Serve
pub mod Marked
pub mod Gathered
