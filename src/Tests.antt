-- ===== src/Tests.antt =====
-- A concrete shop, and the theorems at it.
mod Shop
mod Settlements
mod Gate
mod Checkout
mod Issuing
mod Buying
mod Jobs
mod Reads
mod Numbers
mod Catalogue
mod Pushes
