-- ===== src/Models.antt =====
-- internal/models
pub mod Path
pub mod Slug
pub mod Policy
mod Tests
