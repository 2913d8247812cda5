-- ===== src/Sip.antt =====
-- mmdvm_sip/src: from DMR packets of the repeater to decoded audio, and the SIP account.
pub mod Fec
pub mod Dmr
pub mod AmbeClient
pub mod Echo
pub mod PcmWriter
pub mod Listener
pub mod AuthParams
pub mod Error
pub mod Digest
pub mod Transport
pub mod Registration
pub mod SipClient
