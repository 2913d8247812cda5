-- ===== src/Ambed.antt =====
-- md380_emu_ambed/src: the daemon that offers the codec over the AMBE-3000F packet protocol.
pub mod Protocol
pub mod Codec
pub mod Server
pub mod Firmware
pub mod Command
