-- ===== src/Platforms.antt =====
-- The adapters between the service and the providers: src/platforms, and the retries of
-- src/shared/observability.ts.
pub mod Retry
pub mod Adaptive
pub mod Fixture
