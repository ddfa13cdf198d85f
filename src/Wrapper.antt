-- ===== src/Wrapper.antt =====
-- internal/wrapper: the node wrapper.
pub mod Authz
pub mod Desired
pub mod RootAuth
pub mod State
pub mod Server
pub mod Reconciler
