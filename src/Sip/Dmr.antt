-- ===== src/Sip/Dmr.antt =====
-- mmdvm_sip/src/dmr: the packets from the repeater, and the voice frames in them.
pub mod Packet
pub mod VoiceBurst
