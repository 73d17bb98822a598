-- ===== src/Tasks.antt =====
-- The tasks table (src/lib/db/tasks.ts).
pub mod Transitions
pub mod Creation
pub mod Queries
pub mod Unique
pub mod Committed
pub mod Lapse
pub mod Lifecycle
pub mod Tests
