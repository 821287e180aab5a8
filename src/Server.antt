-- ===== src/Server.antt =====
-- Package internal/server: interceptor.go (Interceptor), service.go (Service, with Call for both) and server.go
-- (Lifecycle).
pub mod Rpc
pub mod Interceptor
pub mod Service
pub mod Call
pub mod Lifecycle
pub mod Examples
