-- ===== src/Webhooks.antt =====
-- What GitHub's webhooks do (src/patchline/core/webhook_handlers.py).
pub mod Repositories
pub mod Handlers
pub mod Process
pub mod Route
pub mod Deliveries
pub mod Once
pub mod Sound
pub mod Board
pub mod Pulls
