-- ===== src/Utils.antt =====
-- src/utils: time, cache ids and pagination.
pub mod Cipher
pub mod Time
pub mod CacheIds
pub mod Pagination
mod Tests
