-- ===== src/Comments.antt =====
-- src/comments: the ports of the application and its use cases.
pub mod Contracts
pub mod Returns
pub mod Ensures
pub mod Observation
pub mod Laws
pub mod Invariants
pub mod Service
pub mod Interference
