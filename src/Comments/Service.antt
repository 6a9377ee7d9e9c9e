-- ===== src/Comments/Service.antt =====
-- src/comments/comment-service.ts.
pub mod Replay
pub mod Reply
pub mod Hydration
pub mod Listing
pub mod Requests
