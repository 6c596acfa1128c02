-- ===== src/Worker/Store.antt =====
-- worker_store.py over the tables of schema.sql.
pub mod Tables
pub mod Load
mod Writes
pub mod Leases
mod Register
pub mod Denials
pub mod Claiming
mod Evolves
mod Kept
mod Moves
mod LeaseMoves
mod Admitted
mod ReadForClaim
mod ClaimMoves
mod RegisterMoves
pub mod Calls
pub mod Runs
mod Published
mod AtMostOnce
mod Grants
mod Attempts
pub mod Authorized
pub mod HandedOut
mod Settling
mod Retries
pub mod Releases
mod Closings
pub mod Raises
pub mod Samples
pub mod Histories
mod Inserted
mod Tests
