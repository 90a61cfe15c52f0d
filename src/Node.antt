-- ===== src/Node.antt =====
-- The crate `node`: the relay between the server and the clients.
pub mod State
pub mod Routing
pub mod Redirect
pub mod Handle
pub mod Tasks
pub mod Best
pub mod Frame
pub mod Outcomes
pub mod Invariant
pub mod Subscriptions
pub mod Offers
pub mod Flood
pub mod Recovery
pub mod Health
pub mod Video
pub mod Neighbours
pub mod Ping
