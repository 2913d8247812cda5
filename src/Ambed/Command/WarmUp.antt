-- ===== src/Ambed/Command/WarmUp.antt =====
-- The frames that `encode` of md380_emu_ambed/src/command/encode.rs leaves out at the start.
use wjmmmdvm.Base.{
  ℕ, zero, suc, ◌+◌, ◌-◌, ◌*◌, ◌/◌, ◌≡◌, refl, sym, ap, ◌∙◌, arith, true, false, ltb, List, [], ◌∷◌,
  ◌++◌, length, length-append, take, drop, length-drop, ltb→lt, Bool-cases, inl, inr,
}
use wjmmmdvm.Base.Index.{drop-past}
use wjmmmdvm.Ambed.Codec.{Memory, Firmware, encode}
use wjmmmdvm.Ambed.Codec.Contract.{encode-IsAmb8}
use wjmmmdvm.Ambed.Command.{frame_pcm_samples, encode_loop, run_encode, samples_of_le}

drop-nil : (n : ℕ) → drop {A = ℕ} n [] ≡ []
drop-nil zero = refl
drop-nil (suc n) = refl

length-samples_of_le : (raw : List ℕ) → length (samples_of_le raw) ≡ length raw / 2
unfolding samples_of_le
length-samples_of_le [] = refl
length-samples_of_le (a ∷ []) = refl
length-samples_of_le (a ∷ b ∷ raw) = omega (arith, length-samples_of_le raw)

module _ (fw : Firmware) where
  first : List ℕ → Memory → List ℕ × Memory
  first samples ram = encode fw (take frame_pcm_samples samples) ram

  frame_size : (samples : List ℕ) (ram : Memory) → length (first samples ram).0 ≡ 8
  unfolding first
  frame_size samples ram = (encode-IsAmb8 fw (take frame_pcm_samples samples) ram).size

  writing :
      (n skip skipped : ℕ) (samples : List ℕ) (ram : Memory)
      → ltb skipped skip ≡ false
      → encode_loop fw (suc n) skip skipped samples ram
        ≡ (first samples ram).0
          ++ encode_loop fw n skip skipped (drop frame_pcm_samples samples) (first samples ram).1
  unfolding encode_loop first
  writing n skip skipped samples ram e = rw e refl

  skipping :
      (n skip skipped : ℕ) (samples : List ℕ) (ram : Memory)
      → ltb skipped skip ≡ true
      → encode_loop fw (suc n) skip skipped samples ram
        ≡ encode_loop fw n skip (skipped + 1) (drop frame_pcm_samples samples) (first samples ram).1
  unfolding encode_loop first
  skipping n skip skipped samples ram e = rw e refl

  never : (skipped : ℕ) → ltb skipped 0 ≡ false
  never skipped = ground arith

  encode_loop-drop :
      (n skip skipped written : ℕ) (samples : List ℕ) (ram : Memory)
      → encode_loop fw n skip skipped samples ram
        ≡ drop (8 * (skip - skipped)) (encode_loop fw n 0 written samples ram)
  unfolding encode_loop
  encode_loop-drop zero skip skipped written samples ram = sym (drop-nil (8 * (skip - skipped)))
  encode_loop-drop (suc n) skip skipped written samples ram =
      let frame = (first samples ram).0 in
      let rest = drop frame_pcm_samples samples in
      let ram' = (first samples ram).1 in
      let all = encode_loop fw n 0 written rest ram' in
      let whole = writing n 0 written samples ram (never written) in
      elim (Bool-cases (ltb skipped skip)) [
        | inl more ↦
            skipping n skip skipped samples ram more
            ∙ encode_loop-drop n skip (skipped + 1) written rest ram'
            ∙ sym (
                drop-past frame all (8 * (skip - skipped)) (8 * (skip - (skipped + 1)))
                  (omega (arith, frame_size samples ram, ltb→lt skipped skip more)))
            ∙ ap (drop (8 * (skip - skipped))) (sym whole)
        | inr enough ↦
            let none_left : 8 * (skip - skipped) ≡ 0 = ground arith in
            writing n skip skipped samples ram enough
            ∙ ap (λ t. frame ++ t)
                (encode_loop-drop n skip skipped written rest ram' ∙ ap (λ k. drop k all) none_left)
            ∙ sym whole
            ∙ ap (λ k. drop k (encode_loop fw (suc n) 0 written samples ram)) (sym none_left)
      ]

  length-encode_loop :
      (n written : ℕ) (samples : List ℕ) (ram : Memory)
      → length (encode_loop fw n 0 written samples ram) ≡ 8 * n
  unfolding encode_loop
  length-encode_loop zero written samples ram = refl
  length-encode_loop (suc n) written samples ram =
      let rest =
        encode_loop fw n 0 written (drop frame_pcm_samples samples) (first samples ram).1 in
      omega (
        arith,
        ap length (writing n 0 written samples ram (never written)),
        length-append {0} (first samples ram).0 rest,
        frame_size samples ram,
        length-encode_loop n written (drop frame_pcm_samples samples) (first samples ram).1,
      )

  -- For any firmware, RAM, input and number of frames to skip, the output of `encode` is its
  -- output for none to skip without the first eight bytes for each skipped frame, and it has
  -- eight bytes for each whole frame of 320 input bytes that is not skipped.
  pub run_encode-drop :
      (skip : ℕ) (raw : List ℕ) (ram : Memory)
      → (run_encode fw skip raw ram ≡ drop (8 * skip) (run_encode fw 0 raw ram))
        × (length (run_encode fw skip raw ram) ≡ 8 * (length raw / 320 - skip))
  unfolding run_encode
  run_encode-drop skip raw ram =
      let samples = samples_of_le raw in
      let n = length samples / frame_pcm_samples in
      let all = encode_loop fw n 0 0 samples ram in
      let whole : 8 * (skip - 0) ≡ 8 * skip = omega arith in
      let dropped : encode_loop fw n skip 0 samples ram ≡ drop (8 * skip) all =
        encode_loop-drop n skip 0 0 samples ram ∙ ap (λ k. drop k all) whole in
      let size : length (encode_loop fw n skip 0 samples ram) ≡ 8 * (length raw / 320 - skip) =
        omega (
          arith,
          ap length dropped,
          length-drop {0} (8 * skip) all,
          length-encode_loop n 0 samples ram,
          length-samples_of_le raw,
        ) in
      (dropped, size)
