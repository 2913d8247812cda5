-- ===== src/Sip/Listener/Arrival.antt =====
-- The voice bits on their whole way: off the air, through mmdvm_sip/src/fec/ambe.rs, in a packet of
-- mmdvm_sip/src/dmr_listener.rs, through md380_emu_ambed/src/server.rs, and into the firmware's bit
-- buffer by md380_emu_ambed/src/codec.rs.
use wjmmmdvm.Base.{
  ℕ, ◌+◌, ◌≤◌, ◌≡◌, refl, sym, ap, ◌∙◌, arith, List, [], ◌∷◌, ◌++◌, length, length-append, take,
  length-take, All, All-append, All-take,
}
use mathlib.Core.List.{reverse, reverse_aux}
use wjmmmdvm.Base.Result.{ok}
use wjmmmdvm.Base.Memory.{memory, memory-IsWritable}
use wjmmmdvm.Base.BitList.{IsBit, digits_of, length-digits_of, digits_of-IsBit}
use wjmmmdvm.Ambed.Protocol.{speech}
use wjmmmdvm.Ambed.Codec.{Memory, Firmware, copy_in, copy_out, unpack_frame, ambe_inbuffer, decode}
use wjmmmdvm.Ambed.Codec.Ram.{IsHalf, copy_out-copy_in}
use wjmmmdvm.Ambed.Codec.Bits.{unpack_frame-copy_in}
use wjmmmdvm.Ambed.Server.{running}
use wjmmmdvm.Ambed.Server.Session.{session, amb8_of}
use wjmmmdvm.Ambed.Server.CodecWorker.{md380_codec}
use wjmmmdvm.Sip.Fec.Golay.Decode.{Received}
use wjmmmdvm.Sip.Fec.Ambe.{strip_fec}
use wjmmmdvm.Sip.Fec.Ambe.Strip.{transmitted, voice, strip_fec_recovers}
use wjmmmdvm.Sip.AmbeClient.Daemon.{request_packet, answer_speech}
use wjmmmdvm.Sip.Listener.{pack_voice_bits}
use wjmmmdvm.Sip.Listener.Bits.{frame_size, frame_bits-pack_voice_bits}

length-reverse_aux : (xs acc : List ℕ) → length (reverse_aux xs acc) ≡ length xs + length acc
length-reverse_aux [] acc = omega arith
length-reverse_aux (x ∷ xs) acc = omega (arith, length-reverse_aux xs (x ∷ acc))

reverse_aux-IsBit :
    (xs acc : List ℕ) → All IsBit xs → All IsBit acc → All IsBit (reverse_aux xs acc)
reverse_aux-IsBit [] acc h k = k
reverse_aux-IsBit (x ∷ xs) acc (b, h) k = reverse_aux-IsBit xs (x ∷ acc) h (b, k)

length-reverse : (xs : List ℕ) → length (reverse xs) ≡ length xs
length-reverse xs = omega (arith, length-reverse_aux xs [])

reverse-IsBit : (xs : List ℕ) → All IsBit xs → All IsBit (reverse xs)
reverse-IsBit xs h = reverse_aux-IsBit xs [] h tt

IsBit-IsHalf : (xs : List ℕ) → All IsBit xs → All IsHalf xs
IsBit-IsHalf [] h = tt
IsBit-IsHalf (x ∷ xs) (b, h) = (omega arith, IsBit-IsHalf xs h)

-- The codec's bit buffer after 49 bits came in a Channel packet.
buffer_lem :
    (bits : List ℕ) (ram : Memory)
    → All IsBit bits
    → length bits ≡ 49
    → copy_out ambe_inbuffer 0 49 (unpack_frame (amb8_of (pack_voice_bits bits)) ram) ≡ bits
buffer_lem bits ram are size =
    ap (copy_out ambe_inbuffer 0 49) (
      unpack_frame-copy_in (amb8_of (pack_voice_bits bits)) ram (frame_size bits)
      ∙ ap (λ bs. copy_in ambe_inbuffer 0 bs ram) (frame_bits-pack_voice_bits bits are size))
    ∙ ap (λ n. copy_out ambe_inbuffer 0 n (copy_in ambe_inbuffer 0 bits ram)) (sym size)
    ∙ copy_out-copy_in ambe_inbuffer 0 bits ram (IsBit-IsHalf bits are)

module _ (parity : ℕ) (bits₀ : List ℕ) (d₀ : ℕ) (ps₀ : List ℕ) (r₀ : Received bits₀ d₀ ps₀)
    (last : ℕ) (bits₁ : List ℕ) (d₁ : ℕ) (ps₁ : List ℕ) (r₁ : Received bits₁ d₁ ps₁)
    (c2 c3 : List ℕ) where
  abbrev sent_frame : List (List ℕ)
  sent_frame = transmitted parity bits₀ d₀ ps₀ r₀ last bits₁ d₁ ps₁ r₁ c2 c3

  abbrev voice_sent : List ℕ
  voice_sent = voice parity bits₀ d₀ ps₀ r₀ last bits₁ d₁ ps₁ r₁ c2 c3

  voice-IsBit : All IsBit c2 → All IsBit c3 → All IsBit voice_sent
  voice-IsBit h k =
      All-append IsBit (reverse (digits_of 12 d₀)) _
        (reverse-IsBit (digits_of 12 d₀) (digits_of-IsBit 12 d₀))
        (All-append IsBit (reverse (digits_of 12 d₁)) _
          (reverse-IsBit (digits_of 12 d₁) (digits_of-IsBit 12 d₁))
          (All-append IsBit (reverse (take 11 c2)) (reverse (take 14 c3))
            (reverse-IsBit (take 11 c2) (All-take IsBit 11 c2 h))
            (reverse-IsBit (take 14 c3) (All-take IsBit 14 c3 k))))

  length-voice : 11 ≤ length c2 → 14 ≤ length c3 → length voice_sent ≡ 49
  length-voice h k =
      let a = reverse (digits_of 12 d₀) in
      let b = reverse (digits_of 12 d₁) in
      let c = reverse (take 11 c2) in
      let d = reverse (take 14 c3) in
      omega (
        arith,
        length-append a (b ++ (c ++ d)),
        length-append b (c ++ d),
        length-append c d,
        length-reverse (digits_of 12 d₀),
        length-reverse (digits_of 12 d₁),
        length-reverse (take 11 c2),
        length-reverse (take 14 c3),
        length-digits_of 12 d₀,
        length-digits_of 12 d₁,
        length-take 11 c2,
        length-take 14 c3,
      )

  -- For a frame whose first two rows are the codewords of 12 data bits each, each with at most
  -- three positions flipped, the second scrambled from the data of the first, and whose last two
  -- rows are bits, at least 11 and 14: where the listener strips the frame, packs its bits and
  -- sends them, the daemon answers with the samples of its codec's `decode` of one frame; and
  -- with this frame unpacked into its RAM, the firmware's bit buffer holds the 49 voice bits that
  -- were sent, in their order.
  pub strip_fec_arrives :
      (fw : Firmware) (ram : Memory)
      → All IsBit c2
      → All IsBit c3
      → 11 ≤ length c2
      → 14 ≤ length c3
      → let bytes = pack_voice_bits (strip_fec sent_frame).0 in
        let (pcm, ram') = decode fw (amb8_of bytes) ram in
        (session (md380_codec fw) (request_packet bytes ∷ []) (running ram)
          ≡ (ok (speech pcm ∷ []), running ram'))
        × (copy_out ambe_inbuffer 0 49 (unpack_frame (amb8_of bytes) ram) ≡ voice_sent)
  strip_fec_arrives fw ram h k m n =
      let bytes = pack_voice_bits (strip_fec sent_frame).0 in
      let stripped =
        ap (λ (r : List ℕ × ℕ). r.0)
          (strip_fec_recovers parity bits₀ d₀ ps₀ r₀ last bits₁ d₁ ps₁ r₁ c2 c3 m n) in
      let out = decode fw (amb8_of bytes) ram in
      (
        answer_speech memory memory-IsWritable (md380_codec fw) bytes out.0 ram out.1 refl,
        ap (λ bits. copy_out ambe_inbuffer 0 49 (unpack_frame (amb8_of (pack_voice_bits bits)) ram))
              stripped
            ∙ buffer_lem voice_sent ram (voice-IsBit h k) (length-voice m n),
      )
