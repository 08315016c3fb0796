-- ===== src/Plan.antt =====
-- The plan that takes a live career to a draft.
pub mod Types
pub mod Career
pub mod Skills
pub mod Resources
pub mod Steps
pub mod Build
pub mod Counts
pub mod Ready
pub mod Unchanged
mod Tests
pub mod Deletion
