-- ===== src/Auth.antt =====
-- Accounts, tokens and the guard: src/auth and the authentication half of src/user.
pub mod Platform
pub mod Memory
pub mod Repository
pub mod Jwt
pub mod Service
pub mod Joined
pub mod Google
pub mod Guard
mod Tests
