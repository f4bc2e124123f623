-- ===== src/Tests.antt =====
-- The theorems at concrete inputs, with one concrete choice of what stands for code outside the
-- repository.
pub mod Fixtures
pub mod Crypto
pub mod Classifying
pub mod Tables
pub mod Allowed
pub mod Flow
pub mod Callers
pub mod Running
