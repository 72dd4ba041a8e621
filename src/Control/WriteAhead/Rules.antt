-- ===== src/Control/WriteAhead/Rules.antt =====
-- Rules for the methods: what holds after a call, by what held before it.
mod Calls
mod Durable
pub use Calls.*
pub use Durable.*
