-- ===== src/Node.antt =====
-- registry.rs, and `handle_call` and `handle_cast` of the three servers: the actors of a node, the
-- queues between them, the tasks that they spawn and their timers.
pub mod Control
pub mod State
pub mod Run
pub mod Perform
pub mod Waiters
pub mod Invariant
pub mod Steps
pub mod Panics
pub mod Progress
pub mod Score
pub mod Falls
pub mod Ends
pub mod Plain
pub mod Tidy
pub mod Sent
pub mod Begun
pub mod Tables
mod Tests
