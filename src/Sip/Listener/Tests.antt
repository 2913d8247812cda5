-- ===== src/Sip/Listener/Tests.antt =====
-- The listener's theorems at concrete inputs.
use wjmmmdvm.Base.{
  ℕ, ◌+◌, ◌≡◌, refl, ap, length, arith, List, [], ◌∷◌, ◌++◌, replicate, some, none, inl,
}
use wjmmmdvm.Base.Result.{ok}
use wjmmmdvm.Base.Io.{Wire, unexpected_eof}
use wjmmmdvm.Base.Memory.{memory, memory-IsWritable}
use wjmmmdvm.Ambed.Protocol.{to_bytes}
use wjmmmdvm.Ambed.Codec.Contract.{IsPcm}
use wjmmmdvm.Ambed.Codec.Bits.{frame_bits}
use wjmmmdvm.Ambed.Server.Session.{wire_of, amb8_of}
use wjmmmdvm.Sip.Listener.{key_of, pack_voice_bits, decode_frames}
use wjmmmdvm.Sip.Listener.Bits.{frame_bits-pack_voice_bits}
use wjmmmdvm.Sip.Listener.Frames.{
  Voiced, frames_of, replies_of, requests_of, samples_of, errors_of, decode_frames_lem,
}
use wjmmmdvm.Base.Io.{IoError}
use wjmmmdvm.Base.Result.{Result}
use wjmmmdvm.Ambed.Protocol.{speech}
use wjmmmdvm.Sip.Dmr.Packet.{
  DmrData, data_packet, parse, data_as_bytes, data_magic, slot, data_sync, frame_or_data_type,
  src_id_u32, dst_id_u32,
}
use wjmmmdvm.Sip.Dmr.VoiceBurst.Burst.{VoiceFrame, burst_bits}
use wjmmmdvm.Sip.Dmr.VoiceBurst.Bytes.{pack_bytes}
use wjmmmdvm.Sip.PcmWriter.{FileSystem, Calls, Times, flush_idle, handle_burst}
use wjmmmdvm.Sip.Listener.{decode_voice}
use wjmmmdvm.Sip.Listener.Run.{ListenEvent, idle_tick, received, run_events}
use wjmmmdvm.Sip.Listener.Run.Logged.{HeardIn, IsVoice, Outcome, run_events-Heard}
use wjmmmdvm.Base.{bit_xor}
use wjmmmdvm.Base.BitList.{number, digits_of}
use wjmmmdvm.Ambed.Codec.{copy_out, ambe_inbuffer, unpack_frame}
use wjmmmdvm.Ambed.Codec as Codec
use wjmmmdvm.Ambed.Codec.Sample.{firmware, zeros}
use wjmmmdvm.Ambed.Server.{running}
use wjmmmdvm.Ambed.Server.Session.{session}
use wjmmmdvm.Ambed.Server.CodecWorker.{md380_codec}
use wjmmmdvm.Sip.Fec.Golay.Table.{codeword, flips}
use wjmmmdvm.Sip.Fec.Golay.Decode.{Received}
use wjmmmdvm.Sip.Fec.Ambe.{strip_fec}
use wjmmmdvm.Sip.Fec.Ambe.Strip.{transmitted, voice}
use wjmmmdvm.Sip.AmbeClient.Daemon.{request_packet}
use wjmmmdvm.Sip.Listener.Arrival.{strip_fec_arrives}
use wjmmmdvm.Sip.Listener.Voice.{burst_of, decode_voice_lem}

abbrev voice_bits : List ℕ
voice_bits = 1 ∷ 0 ∷ 1 ∷ 1 ∷ replicate 44 0 ++ 1 ∷ []

frame_bits-pack_voice_bits_example : frame_bits (amb8_of (pack_voice_bits voice_bits)) ≡ voice_bits
frame_bits-pack_voice_bits_example = frame_bits-pack_voice_bits voice_bits (omega arith) refl

abbrev silence : List ℕ
silence = replicate 160 0

silence-IsPcm : IsPcm silence
silence-IsPcm = record { size = refl; halves = omega arith }

abbrev zero_row : List ℕ
zero_row = replicate 24 0

abbrev voiced : Voiced
voiced = record {
  frame = zero_row ∷ zero_row ∷ zero_row ∷ zero_row ∷ [];
  pcm = silence;
  is_pcm = silence-IsPcm;
}

abbrev answers : Wire
answers = record {
  pending = wire_of (replies_of (voiced ∷ voiced ∷ [])) ++ 9 ∷ [];
  ending = unexpected_eof;
  sent = [];
}

decode_frames_lem_example :
    (c' : Wire) × (decode_frames memory 900 (frames_of (voiced ∷ voiced ∷ [])) [] 0 answers
      ≡ ok (([] ++ samples_of (voiced ∷ voiced ∷ []), 0 + errors_of (voiced ∷ voiced ∷ [])), c'))
    × (c' ≡ record answers {
      pending = 9 ∷ [];
      sent = [] ++ wire_of (requests_of (voiced ∷ voiced ∷ []));
    })
decode_frames_lem_example =
    decode_frames_lem memory memory-IsWritable (voiced ∷ voiced ∷ []) [] (9 ∷ []) 0 900 answers refl
      (unfold wire_of in unfold to_bytes in omega arith)

abbrev silent_frame : VoiceFrame
silent_frame = record {
  c0 = zero_row;
  c1 = zero_row;
  c2 = zero_row;
  c3 = zero_row;
  is_frame = record {
    size₀ = refl;
    unused₁ = refl;
    unused₂ = refl;
    bits₀ = omega arith;
    bits₁ = omega arith;
    bits₂ = omega arith;
    bits₃ = omega arith;
    unused₃ = refl;
  };
}

abbrev sync : List ℕ
sync = replicate 48 1

abbrev packet : DmrData
packet = record {
  magic = data_magic;
  seq = 1;
  src_id = 0 ∷ 0 ∷ 1 ∷ [];
  dst_id = 0 ∷ 0 ∷ 2 ∷ [];
  repeater_id = 3;
  flags = 0x81;
  stream_id = 7;
  payload = pack_bytes 33 (burst_bits silent_frame silent_frame silent_frame sync);
  ber = 0;
  rssi = 0;
}

-- A disk that counts the bytes written.
abbrev counter : FileSystem
counter = record {
  Disk = ℕ;
  create = λ name disk. ok disk;
  append = λ name bytes disk. ok (disk + length bytes);
}

abbrev times : Times
times = record { flushed = 1; unix_secs = 86400; opened = 2; written = 3 }

-- The writer on the samples of the burst.
outcome : Result IoError (Unit {0}) × Calls × ℕ
outcome =
    handle_burst counter 1000 times (key_of packet) (src_id_u32 packet) (dst_id_u32 packet)
      (silence ++ (silence ++ silence)) [] 0

outcome_ok : outcome.0 ≡ ok tt
unfolding outcome handle_burst wjmmmdvm.Sip.PcmWriter.open_call flush_idle
    wjmmmdvm.Sip.PcmWriter.write_burst slot
outcome_ok = refl

abbrev three_answers : Wire
three_answers = record {
  pending = wire_of (speech silence ∷ speech silence ∷ speech silence ∷ []) ++ 9 ∷ [];
  ending = unexpected_eof;
  sent = [];
}

decode_voice_lem_example :
    (c' : Wire) × (decode_voice memory counter 1000 2000 times packet three_answers [] 0
      ≡ (ok c', outcome.1, outcome.2))
    × (c' ≡ record three_answers {
      pending = 9 ∷ [];
      sent =
          []
          ++ wire_of (
              requests_of (
                burst_of memory counter 1000 memory-IsWritable silent_frame silent_frame
                  silent_frame sync silence silence silence
                  (9 ∷ [])
                  silence-IsPcm
                  silence-IsPcm
                  silence-IsPcm));
    })
unfolding outcome
decode_voice_lem_example =
    decode_voice_lem memory counter 1000 memory-IsWritable silent_frame silent_frame silent_frame
      sync silence silence silence (9 ∷ []) silence-IsPcm silence-IsPcm silence-IsPcm 2000 times
      packet three_answers [] outcome.1 0 outcome.2 refl (omega arith) refl
      (unfold data_sync in refl) (unfold frame_or_data_type in omega arith) refl
      (unfold wire_of in unfold to_bytes in omega arith)
      (ap (λ o. (o, outcome.1, outcome.2)) outcome_ok)

packet_heard : parse (data_as_bytes packet) ≡ data_packet packet
unfolding parse data_as_bytes wjmmmdvm.Base.BitList.same wjmmmdvm.Sip.Dmr.Packet.data_of_bytes
    wjmmmdvm.Sip.Dmr.Packet.u32_be wjmmmdvm.Sip.Dmr.Packet.u32_bytes pack_bytes
packet_heard = refl

packet-IsVoice : IsVoice packet
packet-IsVoice = (unfold data_sync in refl, unfold frame_or_data_type in omega arith)

-- The voice packet, which leaves three answers of the codec more for the next one, and a tick.
abbrev events : List (ListenEvent memory counter)
events = received (data_as_bytes packet) times three_answers ∷ idle_tick 5 ∷ []

voice_in_events : HeardIn memory counter 1000 packet events
voice_in_events = inl (packet_heard, packet-IsVoice)

run_events-Heard_example :
    Outcome memory counter 1000
      (λ p. HeardIn memory counter 1000 p events)
      none
      (run_events memory counter 1000 events
        (some (record { codec = three_answers; calls = []; disk = 0 })))
run_events-Heard_example =
    run_events-Heard memory counter 1000 (λ bs c. tt) (λ c. tt) (λ name disk. tt)
      (λ name bytes disk. tt) events three_answers 0

-- Two codewords with three positions flipped in each.
abbrev places : List ℕ
places = 22 ∷ 12 ∷ 1 ∷ []

abbrev word : List ℕ
word = digits_of 23 (bit_xor (codeword 0x3c5) (flips places))

word-Received : Received word 0x3c5 places
unfolding number digits_of codeword flips
word-Received = record {
  size = refl;
  are_bits = omega arith;
  word = refl;
  d_small = omega arith;
  positions = omega arith;
  few = omega arith;
}

abbrev uncoded : List ℕ
uncoded = 1 ∷ 0 ∷ 1 ∷ replicate 21 0

abbrev off_air : List (List ℕ)
off_air =
    transmitted 1 word 0x3c5 places word-Received 0 word 0x3c5 places word-Received uncoded uncoded

strip_fec_arrives_example :
    let bytes = pack_voice_bits (strip_fec off_air).0 in
    let (pcm, ram') = Codec.decode firmware (amb8_of bytes) zeros in
    (session (md380_codec firmware) (request_packet bytes ∷ []) (running zeros)
      ≡ (ok (speech pcm ∷ []), running ram'))
    × (copy_out ambe_inbuffer 0 49 (unpack_frame (amb8_of bytes) zeros)
        ≡ voice 1 word 0x3c5 places word-Received 0 word 0x3c5 places word-Received uncoded uncoded)
strip_fec_arrives_example =
    strip_fec_arrives 1 word 0x3c5 places word-Received 0 word 0x3c5 places word-Received uncoded
      uncoded firmware zeros (omega arith) (omega arith) (omega arith) (omega arith)
