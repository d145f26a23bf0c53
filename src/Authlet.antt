-- ===== src/Authlet.antt =====
-- internal/authletstore: the tables of the authorization server.
pub mod Errors
pub mod Codes
pub mod Refresh
pub mod Keys
mod Tests
