-- ===== src/Proto.antt =====
-- The protocol layers, one module for each src/pkt_<protocol>.c.
pub mod Layer
pub mod Eth
pub mod Arp
pub mod Ip4
pub mod Icmp
pub mod Udp
pub mod Tcp
pub mod Raw
