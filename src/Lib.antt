-- ===== src/Lib.antt =====
-- Coffee traceability: the backend that follows coffee from the farm to the buyer.
--
-- The program (src/) is an Express server over PostgreSQL. Farmers' deliveries are collected into
-- batches; a batch is processed, stored in a warehouse, moved and sold; each step is one request
-- handler, which checks the caller, writes in a transaction, records an event in a hash chain, sends
-- notifications and writes an audit entry. All changes of a batch's status go through one function,
-- `transitionBatchStatus`.
--
-- What models what:
-- - Schema: the enums and tables of prisma/schema.prisma, with the columns that the modelled code uses.
-- - World: the database, the process's caches, and the services that the code only calls, as
--   the parameter `Env`: the clock, new identifiers, SHA-256, JSON, the text of dates and identifiers,
--   the setting of the ledger, the order that the database gives to rows of one time in the queries of
--   the ledger, and the outages of the notification table. A handler is an action of a
--   state monad with failures; `with_transaction` is src/repositories/prisma.client.ts.
-- - Batches: src/modules/coffeeBatches (`transition_batch_status` is `transitionBatchStatus`,
--   `update_batch_status` is `updateBatchStatus`).
-- - Processing, Warehouses, Transfers, Lots, Deliveries: the route handlers of src/modules/processing,
--   warehouses, ownershipTransfers, batchGroups and deliveries. A handler of `POST /store` is
--   `store_handler`; the body of its transaction is `store_in_tx`.
-- - Ledger: src/blockchain/blockchain.service.ts. Notifications: src/modules/notifications, its events
--   in the file itself, the inbox and its handlers in Notifications.Serving.
-- - Permissions: src/modules/permissions and src/constants/permissions.ts. Scope: src/middleware/
--   scopeHelpers.ts and authorize.ts. Audit, EntityCode, Dates, Errors: src/utils and auditLogs.
-- - Accounts: the tables of users and farmers with their unique columns. Auth: src/modules/auth and the
--   guards of src/middleware (authenticate, requirePasswordChanged, protect). Identifiers and
--   Credentials: src/auth; bcrypt, jsonwebtoken and the random source are the parameter `Crypto`.
-- - Farmers, Users: src/modules/farmers and users. System: src/modules/system and the maintenance gate.
-- - Buyers, Cooperatives: src/modules/buyers and cooperatives.
-- - Reports: src/modules/reports, of it the operations summary (operations.service.ts), the farmers'
--   delivery statement (farmerStatement.service.ts), the processing yield (yield.service.ts), the
--   warehouse snapshot (inventory.service.ts), the sales ledger (sales.service.ts), the movement report
--   and the traceability sheet (report.service.ts: Journey and Sheet), and the dashboard
--   (dashboard.service.ts), with their handlers. Their
--   arithmetic on decimals, which is floating-point in the code, is exact, but that the environment
--   says which way a value half-way between two hundredths is rounded: there the floating-point value
--   may lie on either side of the exact one. The public page behind a QR code is Batches.Scanning.
-- - Custody: the invariants of the coffee's tables. The children of each component relate its
--   handlers to them; Service puts the handlers together and runs histories of requests,
--   Service.Accounts those about users and farmers.
--
-- Numbers: a weight is a number of hundredths of a kilogram, as the columns keep it; a weight in a
-- request is in milligrams and `kg` rounds it. Times are milliseconds, identifiers are numbers. The
-- only fuel is that of `decimal`, one more than the number it prints, which has at most as many digits.
--
-- Concurrency: requests run one after another. The locks in the code (the warehouse row, the advisory
-- lock of a batch's chain) serialise the checks that the theorems are about; interleavings of handlers
-- between their transactions are not modelled, though `Warehouses.Storing` keeps apart what was read
-- before a transaction from what holds in it.
--
-- Case: lower and upper case are changed for ASCII letters only.
--
-- Not modelled: the PDF of the sheet, the detail of a batch and its QR image,
-- validation by zod but for the checks that matter to a handler, row-level security, logging, and the
-- wiring of the server.
pub mod Prelude
pub mod Errors
pub mod Reports
pub mod Schema
pub mod World
pub mod System
pub mod Texts
pub mod Farmers
pub mod Users
pub mod Ledger
pub mod Notifications
pub mod Permissions
pub mod Scope
pub mod EntityCode
pub mod Accounts
pub mod Audit
pub mod Auth
pub mod Batches
pub mod Credentials
pub mod Dates
pub mod Processing
pub mod Warehouses
pub mod Transfers
pub mod Identifiers
pub mod Lots
pub mod Deliveries
pub mod Custody
pub mod Service
pub mod Samples
pub mod Tests
pub mod Cooperatives
pub mod Buyers
