-- ===== src/Permissions.antt =====
-- The permission system (src/permissions/): its vocabulary, its tables, the checks, the grants.
pub mod Enums
pub mod Tables
pub mod Check
pub mod Requests
pub mod Assign
pub mod Roles
pub mod Listing
