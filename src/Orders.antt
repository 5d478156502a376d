-- ===== src/Orders.antt =====
-- The orders that drivers deliver: src/driver/driver.service.ts and src/validator/validator.service.ts,
-- which write the same table.
pub mod Tables
pub mod Change
pub mod Driver
pub mod Validator
pub mod Calls
pub mod Advance
pub mod Lifecycle
pub mod Changed
pub mod Posting
pub mod Delivery
pub mod Stands
pub mod Shipment
pub mod Tests
