-- ===== src/Network.antt =====
-- How the parts work together: what one of them sends, received by another.
pub mod Stream
pub mod Request
pub mod Watch
pub mod Flood
pub mod Ping
