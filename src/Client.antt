-- ===== src/Client.antt =====
-- The crate `client`: it pings nodes, asks them for videos and plays these.
pub mod State
pub mod Handle
pub mod Tasks
pub mod View
pub mod Best
pub mod Listing
pub mod Invariant
pub mod Frame
pub mod Playback
pub mod Redirection
pub mod Health
pub mod Player
