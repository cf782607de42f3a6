-- ===== src/Tasks.antt =====
-- The background tasks: the rows of controlpanel/api/models/task.py, the world that a worker
-- changes, and the handlers of controlpanel/api/tasks/handlers.
pub mod Status
pub mod World
pub mod Handlers
pub mod Creation
pub mod Delivery
pub mod Journey
pub mod Broker
pub mod Deletion
pub mod Buckets
pub mod Access
mod Tests
