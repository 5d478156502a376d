-- ===== src/Tenants.antt =====
-- The databases of the tenants: src/database/multi-tenant.service.ts, which makes and deletes them, and
-- src/tenant/tenant-context.service.ts with src/tenant/prisma-tenant-cache.ts, which choose the database
-- that serves a request.
pub mod Server
pub mod Databases
pub mod Context
pub mod Maps
pub mod Views
pub mod Provision
pub mod Cleanup
pub mod Lifetime
pub mod Events
pub mod Keeps
pub mod Isolation
pub mod Memory
pub mod Tests
