-- ===== src/Reports.antt =====
-- The reports of modules/reports: each has the handler of report.controller.ts below it.
pub mod Statement
pub mod Inventory
pub mod Range
pub mod Sales
pub mod Yield
pub mod Operations
pub mod Journey
pub mod Sheet
pub mod Dashboard
