-- ===== src/Security.antt =====
-- internal/security: the checks of a request's target path and source sub-path.
pub mod TargetPath
pub mod SubPath
