-- ===== src/Store.antt =====
-- src/lib/errors.ts, and `withTransaction` of src/db/client.ts.
-- Messages and `details` are written for people and are left out: an error is known by its status,
-- its code and whether the caller may retry. The two `SET LOCAL` timeouts of a transaction bound
-- waiting, which a sequence of whole transactions does not show.
mod Errors
pub mod Tx
pub mod Exec
pub mod Keeps
pub use Errors.*
