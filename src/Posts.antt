-- ===== src/Posts.antt =====
-- The posts of src/blog: their repository and their service.
pub mod Table
pub mod Repository
pub mod Service
pub mod Listing
pub mod Answers
pub mod Fresh
pub mod Writes
pub mod Memory
mod Tests
