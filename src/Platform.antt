-- ===== src/Platform.antt =====
-- libs/platform: what every service builds on.
pub mod Postgres
pub mod Outbox
pub mod Kafka
