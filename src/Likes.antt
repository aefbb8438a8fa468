-- ===== src/Likes.antt =====
-- The likes of src/blog: their repository and their service.
pub mod Repository
pub mod Service
pub mod Once
pub mod Groups
pub mod Nicknames
pub mod Memory
pub mod Missing
mod Tests
