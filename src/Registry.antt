-- ===== src/Registry.antt =====
-- registry/consul.go: the Consul client that registers, drains and discovers services.
pub mod Consul
pub mod Exec
pub mod Client
pub mod Register
pub mod Lifecycle
pub mod Lease
pub mod Discover
pub mod Tracked
pub mod Within
pub mod Live
pub mod Counted
