-- ===== src/UserInfo.antt =====
-- The user information of src/user: its repository and its service.
pub mod Repository
pub mod Service
pub mod Reads
pub mod Coherence
pub mod Others
mod Tests
