-- ===== src/Chain.antt =====
-- src/app_contracts/chain.py: the invariants across the contracts of one repository change.
pub mod Members
pub mod Delegation
pub mod Validation
pub mod Names
pub mod Attenuation
pub mod Accepted
