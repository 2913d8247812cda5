-- ===== src/Sip/Fec.antt =====
-- mmdvm_sip/src/fec: the FEC layer of a DMR voice frame.
pub mod Golay
pub mod Ambe
