-- ===== src/Checkout.antt =====
-- src/services/checkout.service.ts: the checks on a basket, the cap on unpaid holds, the holding of
-- a new order's seats, the charge, what a failed charge gives back, and the cancellation.
pub mod Basket
pub mod Hold
pub mod Replay
pub mod Payment
pub mod Create
pub mod Preview
pub mod Quoted
pub mod Reserving
pub mod Created
pub mod Consistency
pub mod Keeping
pub mod Starting
pub mod GivenBack
pub mod Cancelled
