-- ===== src/Httpapi.antt =====
-- internal/httpapi: the parts of the management API with a logic of their own.
pub mod Range
pub mod Authenticator
pub mod Logins
pub mod Listing
pub mod Pages
pub mod Reload
pub mod Update
pub mod Changes
mod Tests
