-- ===== src/Ambed/Codec/Sample.antt =====
-- A firmware that copies bits and samples, and an empty RAM: tests run with them.
use wjmmmdvm.Ambed.Codec.{Memory, Firmware, poke, peek}

-- The encoder writes its first sample to slot 3, and the decoder its first bit to the first sample.
abbrev pub firmware : Firmware
firmware = record {
  ambe_decode_wav = λ wav n bits a4 a5 a6 a7 ram. poke wav 0 (peek bits 0 ram) ram;
  ambe_encode_thing = λ bits a2 wav n a5 slot a7 context ram. poke bits 3 (peek wav 0 ram) ram;
}

abbrev pub zeros : Memory
zeros = λ a. 0
