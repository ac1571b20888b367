-- ===== src/Alerts.antt =====
-- backend/alerts: the life of an alert in the database (Lifecycle), the conditions of rules (Rules),
-- the delivery of notifications (Notifications), the cooldowns (Store), the evaluation of events
-- (Engine) and the cache of rules with the queue (RuleCache).
pub mod Lifecycle
pub mod Notifications
pub mod Rules
pub mod Store
pub mod Engine
pub mod RuleCache
pub mod Tests
