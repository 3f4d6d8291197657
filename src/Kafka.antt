-- ===== src/Kafka.antt =====
-- The Kafka client, src/coev_kafka, beside its codec.
pub mod Transaction
pub mod Range
pub mod Partitioner
mod Tests
