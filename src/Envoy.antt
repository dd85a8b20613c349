-- ===== src/Envoy.antt =====
-- envoy: the process of the shared Envoy and its bootstrap file.
pub mod Manager
pub mod Bootstrap
