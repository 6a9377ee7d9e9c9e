-- ===== src/Repositories.antt =====
-- src/repositories: the storage behind the ports of src/comments/contracts.ts.
pub mod TenantScoped
pub mod InMemory
pub mod Postgres
