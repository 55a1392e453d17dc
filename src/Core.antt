-- ===== src/Core.antt =====
-- internal/core: the pipeline of an incident, from the webhook to the notification, over ports that
-- other packages implement.
pub mod Severity
pub mod Alert
pub mod Intake
pub mod Collect
pub mod Analyze
pub mod Notify
