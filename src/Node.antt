-- ===== src/Node.antt =====
-- crates/waku-node/src: the state that the node's event loop keeps, and its handlers. A peer id, an IP
-- address and an ENR are parameters with their equality.
pub mod Messages
pub mod Handle
pub mod Requests
pub mod Answers
pub mod Publish
pub mod Serving
pub mod Loop
pub mod Machine
pub mod Start
pub mod Client
pub mod Replies
pub mod Accounting
pub mod WellFormed
pub mod Filters
pub mod Pushes
pub mod Connections
pub mod Colocation
pub mod RateLimit
pub mod Throughput
pub mod PeerBook
pub mod Inbound
pub mod Timely
mod Examples
pub mod LoopExamples
