-- ===== src/Wire.antt =====
-- The Kafka wire codec, src/coev_kafka: the packet decoder, the packet encoder and the byte format
-- on which both agree.
pub mod Outcome
pub mod Crc
pub mod Separate
pub mod Field
pub mod Format
pub mod Decoder
pub mod Encoder
pub mod Packet
mod Tests
