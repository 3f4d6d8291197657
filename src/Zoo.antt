-- ===== src/Zoo.antt =====
-- The archives of the ZooKeeper client and its messages, src/coev_zookeeper.
pub mod Archive
pub mod Basic
pub mod Session
pub mod Login
pub mod Watch
pub mod Node
pub mod Create
pub mod Children
pub mod Quorum
pub mod Txn
pub mod Multi
pub mod Message
mod Tests
