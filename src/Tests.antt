-- ===== src/Tests.antt =====
-- A small installation on which the theorems are applied and the methods are run.
pub mod Sample
mod Sessions
mod Keys
mod Factors
mod Members
mod Parts
mod Registration
mod Callers
mod Trail
mod Passkeys
mod Renewal
mod Parameters
