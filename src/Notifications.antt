-- ===== src/Notifications.antt =====
-- trading/notifications: the suppression of repeated alerts.
pub mod Dedup
