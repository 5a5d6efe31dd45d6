-- ===== src/Webhook.antt =====
-- The admission webhooks of api/v1: what the API accepts before a controller sees it.
pub mod Topology
