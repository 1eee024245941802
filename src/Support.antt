-- ===== src/Support.antt =====
-- The support module (app/modules/support): tickets, their replies and attachments.
pub mod Models
pub mod World
pub mod Repository
pub mod Cache
pub mod Attachments
pub mod Creation
pub mod Replies
pub mod Lifecycle
pub mod Access
pub mod Router
pub mod Jobs
pub mod Evolution
