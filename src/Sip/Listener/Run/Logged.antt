-- ===== src/Sip/Listener/Run/Logged.antt =====
-- What the loop of mmdvm_sip/src/dmr_listener.rs keeps of its open calls, whatever arrives and whatever
-- fails.
use wjmmmdvm.Base.{
  ℕ, suc, ◌*◌, ◌≤◌, ◌≡◌, refl, sym, arith, ◌⊎◌, inl, inr, false, Bool-cases, ltb, List, [], ◌∷◌,
  length, Option, none, some,
}
use mathlib.Core.Path.{subst}
use wjmmmdvm.Base.Result.{
  Result, ok, err, stuck, ◌>>=◌, EndsIn, >>=-EndsIn, map_err-EndsIn, Returns,
}
use wjmmmdvm.Base.Io.{IoError, Connection}
use wjmmmdvm.Sip.Error.{SipError, io}
use wjmmmdvm.Sip.Dmr.Packet.{
  Packet, data_packet, config_packet, gps_packet, alias_packet, unknown, parse, DmrData, data_sync,
  frame_or_data_type, src_id_u32, dst_id_u32,
}
use wjmmmdvm.Sip.Dmr.VoiceBurst.{extract_voice_frames}
use wjmmmdvm.Sip.AmbeClient.Ends.{left}
use wjmmmdvm.Sip.PcmWriter.{
  CallKey, CallMeta, Calls, FileName, FileSystem, Times, flush_idle, handle_burst,
}
use wjmmmdvm.Sip.PcmWriter.Burst.{length-samples_le}
use wjmmmdvm.Sip.PcmWriter.Every.{Good, Kept, flush_idle-Good, handle_burst-Good}
use wjmmmdvm.Sip.Listener.{
  ListenError, writer_error, key_of, decode_frames, write_decoded, decode_voice,
}
use wjmmmdvm.Sip.Listener.Run.Full.{IsFull, decode_frames-EndsIn}
use wjmmmdvm.Sip.Listener.Run.{
  ListenEvent, idle_tick, received, recv_failed, Decoder, after_decode, on_packet, on_event,
  run_events,
}

abbrev pub IsVoice : DmrData → Type 0
IsVoice p = (data_sync p.flags ≡ false) × (frame_or_data_type p.flags ≤ 5)

three_frames : (payload : List ℕ) → length (extract_voice_frames payload) ≡ 3
unfolding extract_voice_frames
three_frames payload = refl

module _ (net : Connection) (fs : FileSystem) (idle_timeout : ℕ) where
  open net use {Conn, view, write_all, flush}
  open fs use {Disk, create, append}

  -- The event is a datagram with the voice packet.
  abbrev pub Carries : DmrData → ListenEvent net fs → Type 0
  Carries p (received datagram t broken) = (parse datagram ≡ data_packet p) × IsVoice p
  Carries p (idle_tick now) = ⊥
  Carries p (recv_failed e) = ⊥

  abbrev pub HeardIn : DmrData → List (ListenEvent net fs) → Type 0
  HeardIn p [] = ⊥
  HeardIn p (e ∷ events) = Carries p e ⊎ HeardIn p events

  -- The call was opened by a voice packet that has the property, and holds whole bursts of 480
  -- samples.
  pub record IsCall (Heard : DmrData → Type 0) (k : CallKey) (m : CallMeta) : Type 0 where
    pub opening : DmrData
    pub is_heard : Heard opening
    pub key : key_of opening ≡ k
    pub src : src_id_u32 opening ≡ m.src
    pub dst : dst_id_u32 opening ≡ m.dst
    pub bursts : ℕ
    pub count : m.bytes_written ≡ 960 * bursts

  -- The first error of the socket.
  abbrev pub socket_error : List (ListenEvent net fs) → Option IoError
  socket_error [] = none
  socket_error (idle_tick now ∷ events) = socket_error events
  socket_error (received datagram t broken ∷ events) = socket_error events
  socket_error (recv_failed e ∷ events) = some e

  -- The loop goes on with its decoder, or has ended with the error of the socket.
  abbrev pub Outcome :
      (DmrData → Type 0) → Option IoError → Result SipError (Option (Decoder net fs)) → Type 0
  Outcome Heard none r = (d : Decoder net fs) × (r ≡ ok (some d)) × Good (IsCall Heard) d.calls
  Outcome Heard (some e) r = r ≡ err (io e)

  module _ (writes : (bs : List ℕ) (c : Conn) → Returns (write_all bs c))
      (flushes : (c : Conn) → Returns (flush c))
      (creates : (name : FileName) (disk : Disk) → Returns (create name disk))
      (appends : (name : FileName) (bytes : List ℕ) (disk : Disk)
        → Returns (append name bytes disk)) where
    module _ (Heard : DmrData → Type 0) where
      abbrev Handled : Result ListenError Conn × Calls × Disk → Type 0
      Handled r = Good (IsCall Heard) r.1 × Returns r.0

      burst_written :
          (t : Times) (p : DmrData) (pcm : List ℕ) (calls : Calls) (disk : Disk)
          → Heard p
          → length pcm ≡ 480
          → Good (IsCall Heard) calls
          → Kept (IsCall Heard) fs idle_timeout t (key_of p) pcm (
              handle_burst fs idle_timeout t
                (key_of p)
                (src_id_u32 p)
                (dst_id_u32 p)
                pcm
                calls
                disk)
      burst_written t p pcm calls disk h size g =
          handle_burst-Good (IsCall Heard) fs idle_timeout t (key_of p) pcm creates appends
            (λ m c. record {
              opening = c.opening;
              is_heard = c.is_heard;
              key = c.key;
              src = c.src;
              dst = c.dst;
              bursts = suc c.bursts;
              count = omega (arith, c.count, length-samples_le pcm, size);
            })
            (src_id_u32 p) (dst_id_u32 p)
            (λ m s d z. record {
              opening = p;
              is_heard = h;
              key = refl;
              src = sym s;
              dst = sym d;
              bursts = 0;
              count = z;
            })
            calls disk g

      write_decoded-Handled :
          (t : Times) (p : DmrData) (calls : Calls) (disk : Disk)
          (r : Result ListenError ((List ℕ × ℕ) × Conn))
          → Heard p
          → EndsIn (IsFull net 480) r
          → Good (IsCall Heard) calls
          → Handled (write_decoded net fs idle_timeout t p calls disk r)
      write_decoded-Handled t p calls disk (ok r) h size g =
          let (good, back) = burst_written t p r.0.0 calls disk h size g in
          (
            good,
            >>=-EndsIn (λ u. Unit {0}) (λ c. Unit {0}) _ _
                (map_err-EndsIn (λ u. Unit {0}) writer_error _ back) (λ u v. tt),
          )
      write_decoded-Handled t p calls disk (err e) h size g = (g, tt)
      write_decoded-Handled t p calls disk stuck h size g = absurd size

      decode_voice-Handled :
          (t : Times) (p : DmrData) (c : Conn) (calls : Calls) (disk : Disk)
          → (IsVoice p → Heard p)
          → Good (IsCall Heard) calls
          → Handled (decode_voice net fs idle_timeout (suc (left net c)) t p c calls disk)
      unfolding decode_voice
      decode_voice-Handled t p c calls disk h g = elim (Bool-cases (data_sync p.flags)) [
        | inl t₁ ↦ rw t₁ (g, tt)
        | inr f₁ ↦ elim (Bool-cases (ltb 5 (frame_or_data_type p.flags))) [
          | inl t₂ ↦ rw (f₁, t₂) (g, tt)
          | inr f₂ ↦
              let frames = extract_voice_frames p.payload in
              let low : frame_or_data_type p.flags ≤ 5 = ground arith in
              let full = rw (three_frames p.payload) at (
                decode_frames-EndsIn net writes flushes frames (suc (left net c)) [] 0 c
                  (omega arith)) in
              rw (f₁, f₂)
                (write_decoded-Handled t p calls disk
                  (decode_frames net (suc (left net c)) frames [] 0 c) (h (f₁, low)) full g)
        ]
      ]

      -- The loop goes on.
      abbrev Goes : Result SipError (Option (Decoder net fs)) → Type 0
      Goes r = Outcome Heard none r

      after_decode-Goes :
          (broken : Conn) (r : Result ListenError Conn × Calls × Disk)
          → Handled r
          → Goes (after_decode net fs idle_timeout broken r)
      after_decode-Goes broken (ok c, calls, disk) (g, b) = (_, refl, g)
      after_decode-Goes broken (err e, calls, disk) (g, b) = (_, refl, g)
      after_decode-Goes broken (stuck, calls, disk) (g, b) = absurd b

      on_packet-Goes :
          (packet : Packet) (t : Times) (broken : Conn) (d : Decoder net fs)
          → ((p : DmrData) → packet ≡ data_packet p → IsVoice p → Heard p)
          → Good (IsCall Heard) d.calls
          → Goes (on_packet net fs idle_timeout packet t broken (some d))
      on_packet-Goes (data_packet p) t broken d h g =
          after_decode-Goes broken _ (decode_voice-Handled t p d.codec d.calls d.disk (h p refl) g)
      on_packet-Goes (config_packet c) t broken d h g = (d, refl, g)
      on_packet-Goes (gps_packet c) t broken d h g = (d, refl, g)
      on_packet-Goes (alias_packet c) t broken d h g = (d, refl, g)
      on_packet-Goes (unknown magic len) t broken d h g = (d, refl, g)

      run_events-Outcome :
          (events : List (ListenEvent net fs)) (d : Decoder net fs)
          → ((p : DmrData) → HeardIn p events → Heard p)
          → Good (IsCall Heard) d.calls
          → Outcome Heard (socket_error events) (run_events net fs idle_timeout events (some d))
      unfolding run_events on_event
      run_events-Outcome [] d h g = (d, refl, g)
      run_events-Outcome (idle_tick now ∷ events) d h g =
          run_events-Outcome events (record d { calls = flush_idle idle_timeout now d.calls })
            (λ p c. h p (inr c)) (flush_idle-Good (IsCall Heard) idle_timeout now d.calls g)
      run_events-Outcome (received datagram t broken ∷ events) d h g =
          let (d', e, g') =
            on_packet-Goes (parse datagram) t broken d (λ p e v. h p (inl (e, v))) g in
          subst
            (λ r. Outcome Heard (socket_error events) (r >>= run_events net fs idle_timeout events))
            (sym e) (run_events-Outcome events d' (λ p c. h p (inr c)) g')
      run_events-Outcome (recv_failed e ∷ events) d h g = refl

    -- For a connection and a disk whose operations come back, from a decoder without open calls
    -- and over any events: where `recv_from` fails, the loop ends with the first of its errors;
    -- else, also where decodes or writes fail, it comes to the end of the events, and there it
    -- still has its decoder, no two open calls have the same key, and each open call was opened
    -- by one of the voice packets that were received, has its stream, slot, source and
    -- destination, and counts the bytes of whole bursts of 480 samples.
    pub run_events-Heard :
        (events : List (ListenEvent net fs)) (c : Conn) (disk : Disk)
        → Outcome
            (λ p. HeardIn p events)
            (socket_error events)
            (run_events net fs idle_timeout events
              (some (record { codec = c; calls = []; disk = disk })))
    run_events-Heard events c disk =
        run_events-Outcome (λ p. HeardIn p events) events _ (λ p h. h) (tt, tt)
