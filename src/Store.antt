-- ===== src/Store.antt =====
-- The database of infrastructure/database/prisma/schema.prisma, as the state that the services
-- read and write. A uuid and a date are numbers. Columns that only hold text for people (titles,
-- bodies, messages, snapshots, metadata) are left out, and so is publishing to sockets.
pub mod Table
mod Proofs
mod Quotes
unfoldable pub use Quotes.*
mod Rows
unfoldable pub use Proofs.*
unfoldable pub use Rows.*
