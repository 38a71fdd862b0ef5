-- ===== src/Tests.antt =====
-- The theorems applied at concrete states.
pub mod Demo
pub mod Memory
pub mod Objects
pub mod Access
pub mod Calls
pub mod Profiles
pub mod Sections
pub mod Loading
pub mod Parsing
pub mod Words
pub mod Windowing
pub mod Exceptions
