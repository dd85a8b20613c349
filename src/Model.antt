-- ===== src/Model.antt =====
-- model/types.go: requests, route documents and services.
pub mod Error
pub mod Request
pub mod Strings
pub mod Route
pub mod Service
