-- ===== src/Prisma.antt =====
-- The database client (backend/src/prisma/prisma.service.ts), which the services share. The client and
-- the database are no part of the repository: `Prisma` is the interface that the services rely on,
-- and its laws are the documented effect of each query on the rows of a table.
mod Delegate
mod Monad
pub mod Keys
pub mod Steps
pub use Delegate.*
pub use Monad.*
