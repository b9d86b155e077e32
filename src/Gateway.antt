-- ===== src/Gateway.antt =====
-- The execution gateway, crates/omne-execution-gateway.
pub mod Isolation
pub mod Error
pub mod Types
pub mod Host
pub mod Policy
pub mod Launcher
pub mod Environment
pub mod Directories
pub mod Programs
pub mod Authorize
pub mod Prepare
pub mod Redaction
pub mod AuditLog
pub mod Sandbox
pub mod Combine
pub mod Execute
pub mod PreparedCommand
mod Tests
