-- ===== src/Certguard.antt =====
-- The certguard plugin, pulp_certguard: the entitlements of rhsm/rhsm_check_path.py and the guards of
-- app/models.py.
pub mod Failure
pub mod Der
pub mod Huffman
pub mod PathTree
pub mod Entitlement
mod Tests
