-- ===== src/Sip/Listener/Run/Full.antt =====
-- The samples that the frames of mmdvm_sip/src/dmr_listener.rs come to, whatever the daemon sends.
use wjmmmdvm.Base.{
  ℕ, ◌+◌, ◌*◌, ◌<◌, ◌≡◌, refl, arith, ◌⊎◌, inl, inr, List, [], ◌∷◌, ◌++◌, length, length-append,
}
use wjmmmdvm.Base.Result.{Result, ok, err, stuck, EndsIn, Returns}
use wjmmmdvm.Base.Io.{Connection}
use wjmmmdvm.Sip.Fec.Ambe.{AmbeFr, strip_fec}
use wjmmmdvm.Sip.AmbeClient.{CodecError, decode}
use wjmmmdvm.Sip.AmbeClient.Ends.{left, IsDecoded, decode-EndsIn}
use wjmmmdvm.Sip.Listener.{ListenError, pack_voice_bits, decode_frames}

module _ (net : Connection) where
  open net use {Conn, view, write_all, flush}

  -- The samples of so many frames.
  abbrev pub IsFull : ℕ → (List ℕ × ℕ) × Conn → Type 0
  IsFull n r = length r.0.0 ≡ n

  module _ (writes : (bs : List ℕ) (c : Conn) → Returns (write_all bs c))
      (flushes : (c : Conn) → Returns (flush c)) where
    pub decode_frames-EndsIn :
        (frames : List AmbeFr) (fuel : ℕ) (pcm : List ℕ) (errs : ℕ) (c : Conn)
        → left net c < fuel
        → EndsIn
            (IsFull (length pcm + 160 * length frames))
            (decode_frames net fuel frames pcm errs c)
    unfolding decode_frames
    decode_frames-EndsIn [] fuel pcm errs c h = omega arith
    decode_frames-EndsIn (f ∷ frames) fuel pcm errs c h =
        elim (Result-cases (decode net fuel (pack_voice_bits (strip_fec f).0) c)
          (decode-EndsIn net writes flushes fuel (pack_voice_bits (strip_fec f).0) c h)) [
            | inl (r, e, (size, less)) ↦
                rw (decode_frames, e)
                  (same_size
                    (decode_frames net fuel frames (pcm ++ r.0) (errs + (strip_fec f).1) r.1)
                    (decode_frames-EndsIn frames fuel (pcm ++ r.0) (errs + (strip_fec f).1) r.1
                      (omega arith))
                    (omega (arith, length-append pcm r.0)))
            | inr (x, e) ↦ rw (decode_frames, e) tt
          ]
      where
        Result-cases :
            {n : ℕ} (r : Result CodecError (List ℕ × Conn))
            → EndsIn (IsDecoded net n) r
            → ((a : List ℕ × Conn) × (r ≡ ok a) × IsDecoded net n a)
              ⊎ ((x : CodecError) × (r ≡ err x))
        Result-cases (ok a) h = inl (a, refl, h)
        Result-cases (err x) h = inr (x, refl)
        Result-cases stuck h = absurd h

        same_size :
            {n m : ℕ} (r : Result ListenError ((List ℕ × ℕ) × Conn))
            → EndsIn (IsFull n) r
            → n ≡ m
            → EndsIn (IsFull m) r
        same_size (ok r) h e = omega arith
        same_size (err x) h e = tt
        same_size stuck h e = h
