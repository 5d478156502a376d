-- ===== src/Lib.antt =====
-- A model of the backend's core: who may do what, the tax on a sale, the sale itself with the stock and
-- the accounts that it moves, the orders that drivers deliver, the suppliers, and the databases of the
-- tenants. Paths are those of the repository.
--
-- How the parts interact. A request reaches a handler through the guard of src/guards, which asks the
-- permission service of src/permissions whether a row of the tables grants what the route requires.
-- The grant methods and the role templates of the same service write those rows. The other services run
-- behind the guard, each against the database that the tenant context of src/tenant chooses for the
-- request, through the database client; src/database makes and deletes these databases. Orders and sales
-- write the balance sheets of the same customers.
--
-- - Common: names of the libraries passed on, Boolean tests, lists, texts, and integers for the columns
--   that may fall below zero.
-- - Effect: an awaited call as a function from a state to a result or an error, and the state it
--   leaves; a throw keeps what was written before it. `for_each` is an awaiting loop.
-- - Prisma: the database client, which is a package, as an interface with its documented laws; every
--   statement may fail. Prisma.Memory is an instance, on which the tests run.
-- - Permissions.Enums, Requests, Tables: src/permissions/enums, src/permissions/dto and the tables.
-- - Permissions.Check: hasPermission, checkPermission and checkUserStorePermission of
--   src/permissions/permissions.service.ts. Spec says by rows what a grant is.
-- - Permissions.Assign: assignPermission, revokePermission, addUserToStore and the bulk methods. Rows
--   reads the table as the set of actions recorded under each key, Refines relates the writes to it.
-- - Permissions.Roles: the role templates of the same service, made, changed, deleted and assigned;
--   Defaults has the roles of a new user, Granted the checks after an assignment.
-- - Permissions.Listing: getUserPermissions of the same service, with its grouping by resource and store.
-- - Guard: src/guards/permissions.guard.ts, with the decorators of src/auth/decorators as the forms of a
--   requirement. Guard.Service puts the permission service behind it.
-- - Tax: src/tax/services/tax-calculation.service.ts.
-- - Sale: src/sale/sale.service.ts. Create has createCustomer and the transaction of createSale, Invoice
--   the whole of createSale, with the invoice service as an interface; Settle has the cancelling of a
--   sale, deleteSale and createPayment, Return has createSaleReturn, Account has deleteCustomer, Clear has deleteAllSales. Stock and Keeps say how a list of movements acts on the
--   stock and which calls leave it alone.
-- - Orders: src/driver/driver.service.ts and src/validator/validator.service.ts. Driver and Validator
--   have the methods that write orders, Change what they share, Calls a run of any of them in any
--   order. Advance says which changes take a validated order no step back, Posting what a validation
--   posts to the account of the customer.
-- - Tenants: src/database/multi-tenant.service.ts, which makes and deletes the databases of the tenants
--   (Databases), and src/tenant/tenant-context.service.ts with src/tenant/prisma-tenant-cache.ts, which
--   choose the database of a request (Context). The database server is an interface (Server), with an
--   instance in memory; Events has runs of all of it.
-- - Suppliers: src/supplier/supplier.service.ts. Access says what one call may change in a store that its
--   user may not enter, Calls has runs of calls, Outsiders those of users who may not enter a store.
--
-- Bounds. The loop of deleteAllSales runs on fuel, the number of the sales at the start: each batch that
-- is not empty counts. Every other loop of the modelled code is over a list. Amounts of money are
-- a type with the operations that the code uses and no laws, so what is proved holds of doubles as they
-- round. Quantities of a request for a sale are natural numbers: the request validator wants them
-- positive, and the columns are whole. Those of a return are integers, since the validator does not look
-- at its items. Columns that can fall below zero are integers without a bound. Times
-- are natural numbers; identifiers that the database makes are numbers, since the code only compares them.
--
-- Not modelled: logging, descriptions and columns that no modelled method reads or computes; reads with
-- paging; how src/invoice/invoice.service.ts makes an invoice; writes of other requests between the
-- statements of one call. The writes that a transaction starts with `Promise.all` run in their order. Of
-- the methods `...WithClient` of the permission service, the checks and the listing are the modelled
-- ones over a given client. bulkAssignPermissionsWithClient and
-- assignDefaultPermissionsWithClient are others, and are left out: they create rows without looking for
-- one of the key and pass over errors, so that a table which they have written need not be valid in the
-- sense of Permissions.Assign.Rows. The inheritance of role
-- templates is a column that no check reads.
pub mod Common
pub mod Effect
pub mod Guard
pub mod Orders
pub mod Permissions
pub mod Prisma
pub mod Sale
pub mod Suppliers
pub mod Tax
pub mod Tenants
