-- ===== src/Protocol.antt =====
-- The protocol between server and headset: common/wivrn_packets.h, and the sockets' typed layer of
-- common/wivrn_sockets.h.
pub mod Base
pub mod FromHeadset
pub mod ToHeadset
pub mod TypedSocket
pub mod Exchange
pub mod OverTcp
mod Runs
