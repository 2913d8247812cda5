-- ===== src/Sip/Listener.antt =====
-- mmdvm_sip/src/dmr_listener.rs: a voice burst through the FEC layer and the codec daemon to the
-- writer.
pub mod Bits
pub mod Frames
pub mod Voice
pub mod Arrival
pub mod Run
mod Tests
use wjmmmdvm.Base.{ℕ, zero, suc, ◌+◌, ◌-◌, ◌*◌, ◌/◌, ◌%◌, ◌^◌, bit_and, bit_or, if◌then◌else◌, ltb}
use wjmmmdvm.Base.{List, [], ◌∷◌, ◌++◌, get_or, set, replicate}
use wjmmmdvm.Base.Result.{Result, ok, err, stuck, ◌>>=◌, map_err}
use wjmmmdvm.Base.Io.{IoError, Connection}
use wjmmmdvm.Sip.Fec.Ambe.{AmbeFr, strip_fec}
use wjmmmdvm.Sip.Dmr.Packet.{DmrData, slot, data_sync, frame_or_data_type, src_id_u32, dst_id_u32}
use wjmmmdvm.Sip.Dmr.VoiceBurst.{extract_voice_frames}
use wjmmmdvm.Sip.AmbeClient.{CodecError, decode}
use wjmmmdvm.Sip.PcmWriter.{FileSystem, Calls, CallKey, Times, handle_burst}

-- `for (i, bit) in bits[..48].iter().enumerate()`, `n` rounds from round `i`.
unfoldable pub pack_loop : ℕ → ℕ → List ℕ → List ℕ → List ℕ
pack_loop zero i bits out = out
pack_loop (suc n) i bits out =
    let byte = bit_or (get_or out (i / 8) 0) (bit_and (get_or bits i 0) 1 * 2 ^ (7 - i % 8)) in
    pack_loop n (suc i) bits (set out (i / 8) byte)

unfoldable pub pack_voice_bits : List ℕ → List ℕ
unfolding pack_loop
pack_voice_bits bits =
    let out = pack_loop 48 0 bits (replicate 7 0) in
    set out 6 (bit_or (get_or out 6 0) (bit_and (get_or bits 48 0) 1 * 2 ^ 7))

pub data ListenError : Type 0 where
  codec_error : CodecError → ListenError
  writer_error : IoError → ListenError

abbrev pub key_of : DmrData → CallKey
key_of p = record { stream_id = p.stream_id; slot = slot p.flags }

module _ (net : Connection) where
  open net use {Conn}

  -- The loop over the frames, with the samples and the error count so far.
  unfoldable pub decode_frames :
      ℕ → List AmbeFr → List ℕ → ℕ → Conn → Result ListenError ((List ℕ × ℕ) × Conn)
  decode_frames fuel [] pcm total_errs c = ok ((pcm, total_errs), c)
  decode_frames fuel (fr ∷ frames) pcm total_errs c =
      let (voice_bits, errs) = strip_fec fr in
      elim (decode net fuel (pack_voice_bits voice_bits) c) [
        | ok r ↦ decode_frames fuel frames (pcm ++ r.0) (total_errs + errs) r.1
        | err e ↦ err (codec_error e)
        | stuck ↦ stuck
      ]

  module _ (fs : FileSystem) (idle_timeout : ℕ) where
    open fs use {Disk}

    -- What `decode_voice` does once the frames are decoded. The connection is told where all went
    -- well.
    abbrev pub write_decoded :
        Times
        → DmrData
        → Calls
        → Disk
        → Result ListenError ((List ℕ × ℕ) × Conn)
        → Result ListenError Conn × Calls × Disk
    write_decoded t p calls disk (ok r) =
        let (done, calls', disk') =
          handle_burst fs idle_timeout t (key_of p) (src_id_u32 p) (dst_id_u32 p) r.0.0 calls
            disk in
        (map_err writer_error done >>= λ u. ok r.1, calls', disk')
    write_decoded t p calls disk (err e) = (err e, calls, disk)
    write_decoded t p calls disk stuck = (stuck, calls, disk)

    -- The decoder: the codec's connection, the writer's calls and the disk.
    unfoldable pub decode_voice :
        ℕ → Times → DmrData → Conn → Calls → Disk → Result ListenError Conn × Calls × Disk
    unfolding decode_frames
    decode_voice fuel t p c calls disk =
        if data_sync p.flags
        then (ok c, calls, disk)
        else if ltb 5 (frame_or_data_type p.flags)
        then (ok c, calls, disk)
        else write_decoded t p calls disk
            (decode_frames fuel (extract_voice_frames p.payload) [] 0 c)
