-- ===== src/Gateway.antt =====
-- src/gateways/mpesa: the client of the Daraja API and the gateway on top of it.
pub mod Client
pub mod Once
pub mod Mpesa
pub mod Charged
pub mod Renewed
