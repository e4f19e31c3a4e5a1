-- ===== src/Network.antt =====
-- src/network.rs: the addresses of the bridge, and the connection limit of published ports.
pub mod Ipam
pub mod Proxy
