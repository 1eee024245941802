-- ===== src/Tests.antt =====
-- The theorems at concrete inputs, and the data for them.
mod Cache
mod Data
mod Audit
mod Lifecycle
mod Requests
mod Accounts
mod Sessions
mod Factors
mod Resets
mod Directory
mod Roles
mod Cursor
mod Listing
mod Verification
