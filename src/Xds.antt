-- ===== src/Xds.antt =====
-- xds: the Envoy resources made of the discovered instances, and the server that hands them out.
pub mod Snapshot
pub mod Server
