-- ===== src/Lifecycle/Refines.antt =====
-- Every transaction of the invoice and payment handlers is a change of the contract, or nothing.
pub mod Transactions
pub mod Found
pub mod Claiming
pub mod Settling
pub mod Moving
pub mod Creating
pub mod Reserving
pub mod Paying
