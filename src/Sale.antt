-- ===== src/Sale.antt =====
-- src/sale/sale.service.ts: sales, the stock that they take, and the accounts of the customers.
pub mod Tables
pub mod Stock
pub mod Account
pub mod Create
pub mod Invoice
pub mod Keeps
pub mod Settle
pub mod Return
pub mod Clear
pub mod Tests
