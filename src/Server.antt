-- ===== src/Server.antt =====
-- The crate `server`: the source of the videos (server/src/server.rs, server/src/video.rs).
pub mod Listing
pub mod Text
pub mod Files
pub mod State
pub mod Encoder
pub mod Codec
pub mod Tasks
pub mod Subscriptions
pub mod Stream
pub mod Watch
pub mod Invariant
pub mod Folder
