-- ===== src/Common.antt =====
-- The crate `common`: addresses and constants (common/src/lib.rs), packets (packet.rs) and the
-- reliable UDP socket (reliable.rs); and the lists of subscribers, which node and server keep alike.
pub mod Effect
pub mod Packet
pub mod Reliable
pub mod Subscribers
