-- ===== src/Dhcp.antt =====
-- The DHCP client of softether-core/src/net/dhcp_client.c: its parser, builder and exchange.
pub mod Parse
pub mod Bounds
pub mod Build
pub mod Exchange
