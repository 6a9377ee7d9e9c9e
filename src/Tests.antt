-- ===== src/Tests.antt =====
-- Concrete runs of the in-memory composition, and each property at an input where it says something.
pub mod Sample
mod Once
mod Operations
mod Cursors
mod Comments
mod Replies
mod Lists
mod Providers
mod Api
mod Tenants
pub mod Deployed
pub mod Postgres
pub mod DeployedPages
mod Concurrent
mod Startup
mod Hydrated
mod Recorded
mod Demo
mod Fixture
