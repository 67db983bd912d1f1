-- ===== src/Balancer.antt =====
-- balancer: what forwards the connections to services to their instances.
pub mod Model
pub mod Services
mod Tests
pub mod ServerSide
pub mod IpTables
pub mod Pool
pub mod BalAgent
pub mod Forwarder
