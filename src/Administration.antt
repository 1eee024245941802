-- ===== src/Administration.antt =====
-- The modules roles, admin_users and email_verification of app/modules.
pub mod Models
pub mod Admins
pub mod Kept
pub mod History
