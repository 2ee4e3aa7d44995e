-- ===== src/Repository.antt =====
-- Repositories and their versions, pulpcore/app/models/repository.py.
pub mod Version
pub mod Duplicates
pub mod Overwrite
pub mod Retention
