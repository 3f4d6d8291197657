-- ===== src/Wire/Separate.antt =====
-- prep_encoder.cpp and real_encoder.cpp of src/coev_kafka: the two passes of an encoder as two classes.
pub mod Prep
pub mod Real
pub mod Calls
pub mod Like
pub mod Counts
pub mod Writes
pub mod Agree
pub mod Uncounted
mod Tests
