-- ===== src/Ambed/Codec/Bits.antt =====
-- Unpacking the 49 bits of a frame into the RAM of md380_emu_ambed/src/codec.rs.
use wjmmmdvm.Base.{ℕ, zero, suc, ◌+◌, ◌*◌, ◌≡◌, refl, sym, ap, ap₂, ◌∙◌, arith, bit_and}
use wjmmmdvm.Base.{List, [], ◌∷◌, ◌++◌, length, length-append, take, drop, get_or}
use wjmmmdvm.Base.Bytes.{byte_bits}
use wjmmmdvm.Ambed.Codec.{
  Memory, poke, copy_in, unpack_byte, unpack_bytes, unpack_frame, ambe_inbuffer,
}
use wjmmmdvm.Ambed.Codec.Ram.{copy_in-append}

-- The bits of some bytes, and those of a frame.
unfoldable pub bytes_bits : List ℕ → List ℕ
bytes_bits [] = []
bytes_bits (b ∷ bytes) = byte_bits 8 0 b ++ bytes_bits bytes

unfoldable pub frame_bits : List ℕ → List ℕ
frame_bits frame = bytes_bits (take 6 (drop 1 frame)) ++ bit_and (get_or frame 7 0) 1 ∷ []

pub length-byte_bits : (n j b : ℕ) → length (byte_bits n j b) ≡ n
unfolding byte_bits
length-byte_bits zero j b = refl
length-byte_bits (suc n) j b = ap suc (length-byte_bits n (suc j) b)

length-bytes_bits : (bytes : List ℕ) → length (bytes_bits bytes) ≡ length bytes * 8
unfolding bytes_bits
length-bytes_bits [] = refl
length-bytes_bits (b ∷ bytes) = omega (
  arith,
  length-append (byte_bits 8 0 b) (bytes_bits bytes),
  length-byte_bits 8 0 b,
  length-bytes_bits bytes,
)

unpack_byte-copy_in :
    (n j idx b : ℕ) (ram : Memory)
    → unpack_byte n j idx b ram ≡ copy_in ambe_inbuffer idx (byte_bits n j b) ram
unfolding unpack_byte byte_bits copy_in
unpack_byte-copy_in zero j idx b ram = refl
unpack_byte-copy_in (suc n) j idx b ram = unpack_byte-copy_in n (suc j) (suc idx) b _

unpack_bytes-copy_in :
    (bytes : List ℕ) (idx : ℕ) (ram : Memory)
    → unpack_bytes bytes idx ram ≡ copy_in ambe_inbuffer idx (bytes_bits bytes) ram
unfolding unpack_bytes bytes_bits
unpack_bytes-copy_in [] idx ram = unfold copy_in in refl
unpack_bytes-copy_in (b ∷ bytes) idx ram =
    unpack_bytes-copy_in bytes (idx + 8) (unpack_byte 8 0 idx b ram)
    ∙ ap₂ (λ k r. copy_in ambe_inbuffer k (bytes_bits bytes) r)
        (omega (arith, length-byte_bits 8 0 b)) (unpack_byte-copy_in 8 0 idx b ram)
    ∙ sym (copy_in-append ambe_inbuffer idx (byte_bits 8 0 b) (bytes_bits bytes) ram)

-- Unpacking a frame of eight bytes is one copy of its 49 bits.
pub unpack_frame-copy_in :
    (frame : List ℕ) (ram : Memory)
    → length (take 6 (drop 1 frame)) ≡ 6
    → unpack_frame frame ram ≡ copy_in ambe_inbuffer 0 (frame_bits frame) ram
unfolding unpack_frame frame_bits copy_in
unpack_frame-copy_in frame ram h =
    ap (poke ambe_inbuffer 48 (bit_and (get_or frame 7 0) 1))
      (unpack_bytes-copy_in (take 6 (drop 1 frame)) 0 ram)
    ∙ ap
        (λ k.
          poke ambe_inbuffer k (bit_and (get_or frame 7 0) 1)
            (copy_in ambe_inbuffer 0 (bytes_bits (take 6 (drop 1 frame))) ram))
        (omega (arith, length-bytes_bits (take 6 (drop 1 frame))))
    ∙ sym (
        copy_in-append ambe_inbuffer 0 (bytes_bits (take 6 (drop 1 frame)))
          (bit_and (get_or frame 7 0) 1 ∷ []) ram)
