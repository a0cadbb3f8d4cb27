-- ===== src/Store.antt =====
-- The collections of src/infrastructure/mongodb/models.ts that payments live in, and the writes that
-- the services share. Identifiers, hashes and keys are opaque strings that the code only compares,
-- so they are numbers here; a base-unit amount is the number that its string denotes (see Money); a
-- `Date` is a number of milliseconds; a text is the list of its UTF-16 code units.
pub mod Documents
pub mod Transaction
pub mod Writes
pub use Documents.*
unfoldable pub use Transaction.*
unfoldable pub use Writes.*
