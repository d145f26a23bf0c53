-- ===== src/Authz.antt =====
-- internal/authz
pub mod Tuple
pub mod Namespace
pub mod Store
pub mod Check
pub mod Membership
pub mod Model
pub mod Seed
mod Tests
