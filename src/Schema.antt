-- ===== src/Schema.antt =====
-- src/db/schema.ts: the enumerations and the rows that the services read and write.
-- Generated identifiers (UUIDs) are numbers: a UUID is printed as fixed-width lowercase
-- hexadecimal, so numbers compare as its texts do. Instants are numbers of milliseconds. Columns
-- that no modelled code reads (`updated_at`, `description`, raw gateway payloads) are left out.
mod Status
mod Rows
mod Database
pub mod Objects
pub use Status.*
pub use Rows.*
unfoldable pub use Database.*
