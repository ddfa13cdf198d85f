-- ===== src/Wrapper/Server.antt =====
-- internal/wrapper/server.go: the server and its operations.
pub mod Base
pub mod Admission
pub mod Mount
pub mod Unmount
pub mod Http
pub mod Guards
