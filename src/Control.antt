-- ===== src/Control.antt =====
-- toad/internal/control: the selected-route manager.
pub mod World
pub mod Entries
pub mod Transactions
pub mod Parking
pub mod Restore
pub mod WriteAhead
pub mod Withdrawal
pub mod Protection
pub mod Ownership
pub mod Ensure
pub mod Unpark
pub mod Startup
pub mod Invalidate
pub mod Forget
pub mod Stuck
