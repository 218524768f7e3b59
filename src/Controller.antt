-- ===== src/Controller.antt =====
-- internal/controller: brings the fabric to what the stores say.
pub mod Provisioner
pub mod Reconciler
