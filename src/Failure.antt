-- ===== src/Failure.antt =====
-- Error codes, exceptions and the filters that turn whatever was thrown into a response.
pub mod Codes
pub mod Exceptions
pub mod Filters
