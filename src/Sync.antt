-- ===== src/Sync.antt =====
-- internal/sync: the events of informers, discovery with the identities of kcp, and the controller.
pub mod Handler
pub mod Discovery
pub mod Controller
pub mod Identities
