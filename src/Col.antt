-- ===== src/Col.antt =====
-- The collections of the SDK: sdk/src/col.
pub mod Ringbuffer
pub mod Vector
pub mod Map
pub mod LinkedList
pub mod Listener
