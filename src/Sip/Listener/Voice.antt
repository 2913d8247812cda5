-- ===== src/Sip/Listener/Voice.antt =====
-- `decode_voice` of mmdvm_sip/src/dmr_listener.rs on a whole burst.
use wjmmmdvm.Base.{
  ℕ, ◌<◌, ◌≤◌, ◌≡◌, refl, ap, ◌∙◌, arith, List, [], ◌∷◌, ◌++◌, length, append-nil, All, false, ltb,
}
use wjmmmdvm.Base.BitList.{IsBit}
use wjmmmdvm.Base.Result.{Result, ok, ◌>>=◌, map_err}
use wjmmmdvm.Base.Io.{IoError, Connection, IsWritable}
use wjmmmdvm.Ambed.Protocol.{speech}
use wjmmmdvm.Ambed.Codec.Contract.{IsPcm}
use wjmmmdvm.Ambed.Server.Session.{wire_of}
use wjmmmdvm.Sip.Dmr.Packet.{DmrData, data_sync, frame_or_data_type, src_id_u32, dst_id_u32}
use wjmmmdvm.Sip.Dmr.VoiceBurst.{extract_voice_frames}
use wjmmmdvm.Sip.Dmr.VoiceBurst.Burst.{VoiceFrame, fr, burst_bits}
use wjmmmdvm.Sip.Dmr.VoiceBurst.Bytes.{pack_bytes}
use wjmmmdvm.Sip.Dmr.VoiceBurst.Extract.{extract_voice_frames-burst_bits}
use wjmmmdvm.Sip.PcmWriter.{FileSystem, Calls, Times, handle_burst}
use wjmmmdvm.Sip.Listener.{writer_error, decode_frames, decode_voice, key_of, write_decoded}
use wjmmmdvm.Sip.Listener.Frames.{Voiced, requests_of, samples_of, errors_of, decode_frames_lem}

module _ (net : Connection) (fs : FileSystem) (idle_timeout : ℕ) where
  open net use {Conn, view}
  open fs use {Disk}

  voice_form :
      (fuel : ℕ) (t : Times) (p : DmrData) (c : Conn) (calls : Calls) (disk : Disk)
      → data_sync p.flags ≡ false
      → frame_or_data_type p.flags ≤ 5
      → decode_voice net fs idle_timeout fuel t p c calls disk
        ≡ write_decoded net fs idle_timeout t p calls disk
            (decode_frames net fuel (extract_voice_frames p.payload) [] 0 c)
  unfolding decode_voice
  voice_form fuel t p c calls disk v k =
      let low : ltb 5 (frame_or_data_type p.flags) ≡ false = ground arith in rw v (rw low refl)

  abbrev pub voiced : VoiceFrame → (pcm : List ℕ) → IsPcm pcm → Voiced
  voiced f pcm h = record { frame = fr f; pcm = pcm; is_pcm = h }

  module _ (writable : IsWritable net) (f1 f2 f3 : VoiceFrame) (sync p1 p2 p3 rest : List ℕ) where
    module _ (h1 : IsPcm p1) (h2 : IsPcm p2) (h3 : IsPcm p3) where
      abbrev pub burst_of : List Voiced
      burst_of = voiced f1 p1 h1 ∷ voiced f2 p2 h2 ∷ voiced f3 p3 h3 ∷ []

      samples_lem : samples_of burst_of ≡ p1 ++ (p2 ++ p3)
      samples_lem = ap (λ s. p1 ++ (p2 ++ s)) (append-nil p3)

      -- For a voice packet whose payload is a burst of three transmitted frames around 48 bits, a
      -- codec connection that can be written and on which three speech packets arrive for them,
      -- and a writer that takes the burst: `decode_voice` sends the three Channel packets of the
      -- voice bits of the frames, hands the samples of the three replies in order to
      -- `handle_burst` under the packet's stream and slot, with its source and destination, and
      -- leaves what comes behind the replies.
      pub decode_voice_lem :
          (fuel : ℕ) (t : Times) (p : DmrData) (c : Conn) (calls calls' : Calls) (disk disk' : Disk)
          → length sync ≡ 48
          → All IsBit sync
          → p.payload ≡ pack_bytes 33 (burst_bits f1 f2 f3 sync)
          → data_sync p.flags ≡ false
          → frame_or_data_type p.flags ≤ 5
          → (view c).pending ≡ wire_of (speech p1 ∷ speech p2 ∷ speech p3 ∷ []) ++ rest
          → length (view c).pending < fuel
          → handle_burst fs idle_timeout t
              (key_of p)
              (src_id_u32 p)
              (dst_id_u32 p)
              (p1 ++ (p2 ++ p3))
              calls
              disk
            ≡ (ok tt, calls', disk')
          → (c' : Conn) × (decode_voice net fs idle_timeout fuel t p c calls disk
              ≡ (ok c', calls', disk'))
            × (view c' ≡ record (view c) {
              pending = rest;
              sent = (view c).sent ++ wire_of (requests_of burst_of);
            })
      decode_voice_lem fuel t p c calls calls' disk disk' size bits payload v k e h w =
          let (c', decoded, wire) = decode_frames_lem net writable burst_of [] rest 0 fuel c e h in
          let frames =
            ap extract_voice_frames payload
            ∙ extract_voice_frames-burst_bits f1 f2 f3 sync size bits in
          (
            c',
            voice_form fuel t p c calls disk v k
                ∙ ap
                    (λ fs'.
                      write_decoded net fs idle_timeout t p calls disk
                        (decode_frames net fuel fs' [] 0 c))
                    frames
                ∙ ap (write_decoded net fs idle_timeout t p calls disk) decoded
                ∙ ap
                    (λ pcm.
                      write_decoded net fs idle_timeout t p calls disk
                        (ok ((pcm, errors_of burst_of), c')))
                    samples_lem
                ∙ ap
                    (λ (x : Result IoError (Unit {0}) × Calls × Disk).
                      (map_err writer_error x.0 >>= λ u. ok c', x.1, x.2))
                    w,
            wire,
          )
