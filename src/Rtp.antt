-- ===== src/Rtp.antt =====
-- internal/sipua/rtp.go: one RTP stream, its packets, the receive statistics and the RTCP report.
pub mod Packet
pub mod Sequence
pub mod Receive
pub mod Stream
