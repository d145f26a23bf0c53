-- ===== src/Service.antt =====
-- internal/service
pub mod ListOptions
pub mod Handoff
pub mod Snippet
pub mod Sections
mod Tests
pub mod Access
pub mod Grants
pub mod Users
pub mod Includes
