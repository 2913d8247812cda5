-- ===== src/Ambed/Codec/Pack.antt =====
-- Packing the encoder's 49 bits in md380_emu_ambed/src/codec.rs, and unpacking the result.
use wjmmmdvm.Base.{
  ℕ, zero, suc, ◌+◌, ◌*◌, ◌-◌, ◌%◌, ◌^◌, ◌<◌, ◌≡◌, refl, sym, ap, ap₂, ◌∙◌, arith, bit_and, bit_or,
}
use wjmmmdvm.Base.{
  List, [], ◌∷◌, ◌++◌, map, length, length-append, length-map, length-take, length-drop, All,
  All-append, drop, get_or, take-append,
}
use wjmmmdvm.Base.Bits.{bit_and-one}
use wjmmmdvm.Base.BitList.{IsBit}
use wjmmmdvm.Base.Bytes.{byte_bits, or_bits, byte_bits-or_bits, or_bits-lt}
use wjmmmdvm.Base.Index.{get_or-past}
use wjmmmdvm.Ambed.Protocol.Amb8.{IsAmb8}
use wjmmmdvm.Ambed.Codec.{
  Memory, Firmware, peek, copy_in, copy_out, unpack_frame, pack_byte, pack_rows, pack_frame,
  ambe_inbuffer, ambe_outbuffer, encode,
}
use wjmmmdvm.Ambed.Codec.Ram.{IsHalf, length-copy_out, copy_out-copy_in}
use wjmmmdvm.Ambed.Codec.Bits.{bytes_bits, frame_bits, unpack_frame-copy_in}

abbrev pub low_bit : ℕ → ℕ
low_bit v = v % 2

low_bits-IsBit : (vs : List ℕ) → All IsBit (map low_bit vs)
low_bits-IsBit [] = tt
low_bits-IsBit (v ∷ vs) = (omega arith, low_bits-IsBit vs)

low_bits-IsHalf : (vs : List ℕ) → All IsHalf (map low_bit vs)
low_bits-IsHalf [] = tt
low_bits-IsHalf (v ∷ vs) = (omega arith, low_bits-IsHalf vs)

pack_byte-or_bits :
    (n j i byte : ℕ) (ram : Memory)
    → pack_byte n j i ram byte
      ≡ or_bits j (map low_bit (copy_out ambe_outbuffer (i * 8 + j) n ram)) byte
unfolding pack_byte or_bits copy_out
pack_byte-or_bits zero j i byte ram = refl
pack_byte-or_bits (suc n) j i byte ram =
    let v = peek ambe_outbuffer (i * 8 + j) ram in
    let e : suc (i * 8 + j) ≡ i * 8 + suc j = omega arith in
    let same_bit : bit_and v 1 % 2 ^ 8 ≡ bit_and (v % 2) 1 =
      omega (arith, bit_and-one v, bit_and-one (v % 2)) in
    pack_byte-or_bits n (suc j) i _ ram
    ∙ ap₂
        (λ k b.
          or_bits (suc j) (map low_bit (copy_out ambe_outbuffer k n ram))
            (bit_or byte (b * 2 ^ (7 - j))))
        (sym e) same_bit

copy_out-add :
    (base i n m : ℕ) (ram : Memory)
    → copy_out base i (n + m) ram ≡ copy_out base i n ram ++ copy_out base (i + n) m ram
unfolding copy_out
copy_out-add base i zero m ram =
    let e : i ≡ i + 0 = omega arith in
    let k : 0 + m ≡ m = omega arith in ap₂ (λ x y. copy_out base x y ram) e k
copy_out-add base i (suc n) m ram =
    let e : suc n + m ≡ suc (n + m) = omega arith in
    let k : suc i + n ≡ i + suc n = omega arith in
    ap (λ x. copy_out base i x ram) e
    ∙ ap (λ t. peek base i ram ∷ t)
        (copy_out-add base (suc i) n m ram
          ∙ ap (λ x. copy_out base (suc i) n ram ++ copy_out base x m ram) k)

map_append : (vs ws : List ℕ) → map low_bit (vs ++ ws) ≡ map low_bit vs ++ map low_bit ws
map_append [] ws = refl
map_append (v ∷ vs) ws = ap (λ t. v % 2 ∷ t) (map_append vs ws)

-- The bits that the encoder left, lowest bit of each halfword.
abbrev pub encoder_bits : ℕ → ℕ → Memory → List ℕ
encoder_bits i n ram = map low_bit (copy_out ambe_outbuffer i n ram)

length-encoder_bits : (i n : ℕ) (ram : Memory) → length (encoder_bits i n ram) ≡ n
length-encoder_bits i n ram =
    length-map (copy_out ambe_outbuffer i n ram) low_bit ∙ length-copy_out ambe_outbuffer i n ram

packed_byte :
    (i : ℕ) (ram : Memory)
    → (byte_bits 8 0 (pack_byte 8 0 i ram 0) ≡ encoder_bits (i * 8) 8 ram)
      × (pack_byte 8 0 i ram 0 < 256)
packed_byte i ram =
    let bits = encoder_bits (i * 8) 8 ram in
    let are_bits = low_bits-IsBit (copy_out ambe_outbuffer (i * 8) 8 ram) in
    let e : i * 8 + 0 ≡ i * 8 = omega arith in
    let packed : pack_byte 8 0 i ram 0 ≡ or_bits 0 bits 0 =
      pack_byte-or_bits 8 0 i 0 ram ∙ ap (λ k. or_bits 0 (encoder_bits k 8 ram) 0) e in
    (
      ap (byte_bits 8 0) packed
          ∙ byte_bits-or_bits bits are_bits (length-encoder_bits (i * 8) 8 ram),
      omega (arith, packed, or_bits-lt bits are_bits (length-encoder_bits (i * 8) 8 ram)),
    )

bytes_bits-pack_rows :
    (n i : ℕ) (ram : Memory) → bytes_bits (pack_rows n i ram) ≡ encoder_bits (i * 8) (n * 8) ram
unfolding bytes_bits pack_rows
bytes_bits-pack_rows zero i ram = unfold copy_out in refl
bytes_bits-pack_rows (suc n) i ram =
    let e : suc n * 8 ≡ 8 + n * 8 = omega arith in
    let k : suc i * 8 ≡ i * 8 + 8 = omega arith in
    ap₂ ◌++◌ (packed_byte i ram).0
      (bytes_bits-pack_rows n (suc i) ram ∙ ap (λ x. encoder_bits x (n * 8) ram) k)
    ∙ sym (
        ap (λ x. encoder_bits (i * 8) x ram) e
        ∙ ap (map low_bit) (copy_out-add ambe_outbuffer (i * 8) 8 (n * 8) ram)
        ∙ map_append (copy_out ambe_outbuffer (i * 8) 8 ram)
            (copy_out ambe_outbuffer (i * 8 + 8) (n * 8) ram))

length-pack_rows : (n i : ℕ) (ram : Memory) → length (pack_rows n i ram) ≡ n
unfolding pack_rows
length-pack_rows zero i ram = refl
length-pack_rows (suc n) i ram = ap suc (length-pack_rows n (suc i) ram)

pack_rows-IsByte : (n i : ℕ) (ram : Memory) → All (λ b. b < 256) (pack_rows n i ram)
unfolding pack_rows
pack_rows-IsByte zero i ram = tt
pack_rows-IsByte (suc n) i ram = ((packed_byte i ram).1, pack_rows-IsByte n (suc i) ram)

abbrev last_byte : Memory → ℕ
last_byte ram = bit_and (peek ambe_outbuffer 48 ram) 1 % 2 ^ 8

last_byte_lem : (ram : Memory) → last_byte ram ≡ peek ambe_outbuffer 48 ram % 2
last_byte_lem ram = omega (arith, bit_and-one (peek ambe_outbuffer 48 ram))

-- The byte behind the six.
last_of : (rows : List ℕ) (x : ℕ) → length rows ≡ 6 → get_or (0 ∷ (rows ++ x ∷ [])) 7 0 ≡ x
last_of rows x h = get_or-past (0 ∷ rows) (x ∷ []) 7 0 0 (omega arith)

pub pack_frame-IsAmb8 : (ram : Memory) → IsAmb8 (pack_frame ram)
unfolding pack_frame
pack_frame-IsAmb8 ram = record {
  size =
      omega
        (arith, length-append (pack_rows 6 0 ram) (last_byte ram ∷ []), length-pack_rows 6 0 ram);
  bytes = (
    omega arith,
    All-append (λ b. b < 256) (pack_rows 6 0 ram) (last_byte ram ∷ []) (pack_rows-IsByte 6 0 ram)
        (omega arith, tt),
  );
  status = refl;
  last = omega (
    arith,
    last_of (pack_rows 6 0 ram) (last_byte ram) (length-pack_rows 6 0 ram),
    last_byte_lem ram,
  );
}

last_slot : (ram : Memory) → encoder_bits 48 1 ram ≡ peek ambe_outbuffer 48 ram % 2 ∷ []
unfolding copy_out
last_slot ram = refl

pub frame_bits-pack_frame : (ram : Memory) → frame_bits (pack_frame ram) ≡ encoder_bits 0 49 ram
unfolding frame_bits pack_frame
frame_bits-pack_frame ram =
    let rows = pack_rows 6 0 ram in
    ap₂ (λ r l. bytes_bits r ++ bit_and l 1 ∷ [])
      (take-append 6 rows (last_byte ram ∷ []) (sym (length-pack_rows 6 0 ram)))
      (last_of rows (last_byte ram) (length-pack_rows 6 0 ram))
    ∙ ap₂ (λ r l. r ++ l ∷ []) (bytes_bits-pack_rows 6 0 ram) last_bit
    ∙ sym (
        ap (map low_bit) (copy_out-add ambe_outbuffer 0 48 1 ram)
        ∙ map_append (copy_out ambe_outbuffer 0 48 ram) (copy_out ambe_outbuffer 48 1 ram)
        ∙ ap (λ t. encoder_bits 0 48 ram ++ t) (last_slot ram))
  where
    last_bit : bit_and (last_byte ram) 1 ≡ peek ambe_outbuffer 48 ram % 2
    last_bit = omega (arith, bit_and-one (last_byte ram), last_byte_lem ram)

-- For any firmware, samples and RAM, unpacking the frame that `encode` returns, into any RAM,
-- puts into the firmware's bit buffer the lowest bits of the 49 halfwords that stand in the
-- encoder's output buffer after `encode`.
pub unpack_frame-encode :
    (fw : Firmware) (pcm : List ℕ) (before other : Memory)
    → let (frame, ram) = encode fw pcm before in
      copy_out ambe_inbuffer 0 49 (unpack_frame frame other)
      ≡ map low_bit (copy_out ambe_outbuffer 0 49 ram)
unfolding encode
unpack_frame-encode fw pcm before other =
    let ram = (encode fw pcm before).1 in
    let bits = encoder_bits 0 49 ram in
    ap (copy_out ambe_inbuffer 0 49) (
      unpack_frame-copy_in (pack_frame ram) other (
        omega (
          arith,
          length-take 6 (drop 1 (pack_frame ram)),
          length-drop 1 (pack_frame ram),
          (pack_frame-IsAmb8 ram).size,
        ))
      ∙ ap (λ bs. copy_in ambe_inbuffer 0 bs other) (frame_bits-pack_frame ram))
    ∙ ap (λ n. copy_out ambe_inbuffer 0 n (copy_in ambe_inbuffer 0 bits other))
        (sym (length-encoder_bits 0 49 ram))
    ∙ copy_out-copy_in ambe_inbuffer 0 bits other
        (low_bits-IsHalf (copy_out ambe_outbuffer 0 49 ram))
