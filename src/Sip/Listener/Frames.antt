-- ===== src/Sip/Listener/Frames.antt =====
-- The frames of a burst through the codec client of mmdvm_sip/src/dmr_listener.rs.
use wjmmmdvm.Base.{
  ℕ, ◌+◌, ◌<◌, ◌≡◌, refl, sym, ap, ap₂, ◌∙◌, arith, List, [], ◌∷◌, ◌++◌, length, length-append, map,
  append-nil, append_assoc,
}
use wjmmmdvm.Base.Result.{ok}
use wjmmmdvm.Base.Io.{Wire, Connection, IsWritable}
use wjmmmdvm.Ambed.Protocol.{Packet, speech, to_bytes}
use wjmmmdvm.Ambed.Codec.Contract.{IsPcm}
use wjmmmdvm.Ambed.Server.Session.{wire_of}
use wjmmmdvm.Sip.Fec.Ambe.{AmbeFr, strip_fec}
use wjmmmdvm.Sip.AmbeClient.{decode}
use wjmmmdvm.Sip.AmbeClient.Daemon.{request_packet, decode-speech}
use wjmmmdvm.Sip.Listener.{pack_voice_bits, decode_frames}

-- A frame and the samples that the daemon has for it.
pub record Voiced : Type 0 where
  pub frame : AmbeFr
  pub pcm : List ℕ
  pub is_pcm : IsPcm pcm

abbrev pub frames_of : List Voiced → List AmbeFr
frames_of vs = map (λ v. v.frame) vs

abbrev pub replies_of : List Voiced → List Packet
replies_of vs = map (λ v. speech v.pcm) vs

abbrev pub requests_of : List Voiced → List Packet
requests_of vs = map (λ v. request_packet (pack_voice_bits (strip_fec v.frame).0)) vs

abbrev pub samples_of : List Voiced → List ℕ
samples_of [] = []
samples_of (v ∷ vs) = v.pcm ++ samples_of vs

abbrev pub errors_of : List Voiced → ℕ
errors_of [] = 0
errors_of (v ∷ vs) = (strip_fec v.frame).1 + errors_of vs

module _ (net : Connection) (writable : IsWritable net) where
  open net use {Conn, view}

  frame_step :
      (fuel : ℕ) (v : Voiced) (vs : List Voiced) (pcm : List ℕ) (errs : ℕ) (c c₁ : Conn)
      → decode net fuel (pack_voice_bits (strip_fec v.frame).0) c ≡ ok (v.pcm, c₁)
      → decode_frames net fuel (frames_of (v ∷ vs)) pcm errs c
        ≡ decode_frames net fuel (frames_of vs) (pcm ++ v.pcm) (errs + (strip_fec v.frame).1) c₁
  unfolding decode_frames
  frame_step fuel v vs pcm errs c c₁ d = rw (decode_frames, d) refl

  -- For a connection that takes every byte written and has to come one Speech reply of 160
  -- samples for each frame and then any bytes, `decode_frames` with fuel above the number of
  -- bytes sends for each frame, in order, a Channel packet of its packed voice bits, returns the
  -- samples of the replies one behind the other and the sum of the error counts of `strip_fec`,
  -- each behind what it was given, and leaves the other bytes to come.
  pub decode_frames_lem :
      (vs : List Voiced) (pcm rest : List ℕ) (errs fuel : ℕ) (c : Conn)
      → (view c).pending ≡ wire_of (replies_of vs) ++ rest
      → length (view c).pending < fuel
      → (c' : Conn) × (decode_frames net fuel (frames_of vs) pcm errs c
          ≡ ok ((pcm ++ samples_of vs, errs + errors_of vs), c'))
        × (view c'
            ≡ record (view c) { pending = rest; sent = (view c).sent ++ wire_of (requests_of vs) })
  unfolding decode_frames wire_of
  decode_frames_lem [] pcm rest errs fuel c e h =
      let total : errs ≡ errs + 0 = omega arith in
      (
        c,
        ap₂ (λ a b. ok ((a, b), c)) (sym (append-nil pcm)) total,
        ap₂ (λ p s. record (view c) { pending = p; sent = s }) e (sym (append-nil (view c).sent)),
      )
  decode_frames_lem (v ∷ vs) pcm rest errs fuel c e h =
      let request = request_packet (pack_voice_bits (strip_fec v.frame).0) in
      let first = e ∙ append_assoc (to_bytes (speech v.pcm)) (wire_of (replies_of vs)) rest in
      let (c₁, d, w) =
        decode-speech net writable (pack_voice_bits (strip_fec v.frame).0) v.pcm
          (wire_of (replies_of vs) ++ rest) fuel c v.is_pcm first h in
      let next = ap (λ (x : Wire). x.pending) w in
      let (c₂, q, u) =
        decode_frames_lem vs (pcm ++ v.pcm) rest (errs + (strip_fec v.frame).1) fuel c₁ next (
          omega (
            arith,
            ap length next,
            ap length first,
            length-append (to_bytes (speech v.pcm)) (wire_of (replies_of vs) ++ rest),
          )) in
      let total : errs + (strip_fec v.frame).1 + errors_of vs ≡ errs + errors_of (v ∷ vs) =
        omega arith in
      (
        c₂,
        frame_step fuel v vs pcm errs c c₁ d
            ∙ q
            ∙ ap₂ (λ a b. ok ((a, b), c₂)) (append_assoc pcm v.pcm (samples_of vs)) total,
        u
            ∙ ap
                (λ (x : Wire). record x {
                  pending = rest;
                  sent = x.sent ++ wire_of (requests_of vs);
                })
                w
            ∙ ap (λ s. record (view c) { pending = rest; sent = s })
                (append_assoc (view c).sent (to_bytes request) (wire_of (requests_of vs))),
      )
