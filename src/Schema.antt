-- ===== src/Schema.antt =====
-- The rows of prisma/schema.prisma, as far as the modelled code reads or writes them, over the
-- enums of that schema. Identifiers (UUIDs) are only compared, and are numbers; a time is a number
-- of milliseconds; a weight or a price is a Decimal with two places, as a number of hundredths.
mod Enums
mod TradeTables
mod AccountTables
pub use Enums.*
pub use TradeTables.*
pub use AccountTables.*
