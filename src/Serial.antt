-- ===== src/Serial.antt =====
-- common/wivrn_serialization.h
pub mod Types
pub mod Packet
pub mod Cursor
pub mod Encoding
pub mod Hash
mod Runs
