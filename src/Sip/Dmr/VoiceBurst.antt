-- ===== src/Sip/Dmr/VoiceBurst.antt =====
-- mmdvm_sip/src/dmr/voice_burst.rs: three voice frames out of the 33 bytes of a burst.
pub mod Place
pub mod Burst
pub mod Bytes
pub mod Extract
mod Tests
use wjmmmdvm.Base.{ℕ, zero, suc, ◌+◌, ◌-◌, ◌*◌, ◌/◌, ◌%◌, ◌^◌, bit_and, bit_or}
use wjmmmdvm.Base.{List, [], ◌∷◌, ◌++◌, map, get_or, set, replicate}
use wjmmmdvm.Base.Bytes.{byte_bits}
use wjmmmdvm.Sip.Fec.Ambe.{AmbeFr, frame_row}

abbrev pub rw_table : List ℕ
rw_table =
    0 ∷ 1 ∷ 0 ∷ 1 ∷ 0 ∷ 1 ∷ 0 ∷ 1 ∷ 0 ∷ 1 ∷ 0 ∷ 1 ∷ 0 ∷ 1 ∷ 0 ∷ 1 ∷ 0 ∷ 1 ∷ 0 ∷ 1 ∷ 0 ∷ 1 ∷ 0 ∷ 2
    ∷ 0 ∷ 2 ∷ 0 ∷ 2 ∷ 0 ∷ 2 ∷ 0 ∷ 2 ∷ 0 ∷ 2 ∷ 0 ∷ 2 ∷ []

abbrev pub rx_table : List ℕ
rx_table =
    23 ∷ 10 ∷ 22 ∷ 9 ∷ 21 ∷ 8 ∷ 20 ∷ 7 ∷ 19 ∷ 6 ∷ 18 ∷ 5 ∷ 17 ∷ 4 ∷ 16 ∷ 3 ∷ 15 ∷ 2 ∷ 14 ∷ 1 ∷ 13
    ∷ 0 ∷ 12 ∷ 10 ∷ 11 ∷ 9 ∷ 10 ∷ 8 ∷ 9 ∷ 7 ∷ 8 ∷ 6 ∷ 7 ∷ 5 ∷ 6 ∷ 4 ∷ []

abbrev pub ry_table : List ℕ
ry_table =
    0 ∷ 2 ∷ 0 ∷ 2 ∷ 0 ∷ 2 ∷ 0 ∷ 2 ∷ 0 ∷ 3 ∷ 0 ∷ 3 ∷ 1 ∷ 3 ∷ 1 ∷ 3 ∷ 1 ∷ 3 ∷ 1 ∷ 3 ∷ 1 ∷ 3 ∷ 1 ∷ 3
    ∷ 1 ∷ 3 ∷ 1 ∷ 3 ∷ 1 ∷ 3 ∷ 1 ∷ 3 ∷ 1 ∷ 3 ∷ 1 ∷ 3 ∷ []

abbrev pub rz_table : List ℕ
rz_table =
    5 ∷ 3 ∷ 4 ∷ 2 ∷ 3 ∷ 1 ∷ 2 ∷ 0 ∷ 1 ∷ 13 ∷ 0 ∷ 12 ∷ 22 ∷ 11 ∷ 21 ∷ 10 ∷ 20 ∷ 9 ∷ 19 ∷ 8 ∷ 18 ∷ 7
    ∷ 17 ∷ 6 ∷ 16 ∷ 5 ∷ 15 ∷ 4 ∷ 14 ∷ 3 ∷ 13 ∷ 2 ∷ 12 ∷ 1 ∷ 11 ∷ 0 ∷ []

-- `fr[r][c] = v`
abbrev pub set_cell : AmbeFr → ℕ → ℕ → ℕ → AmbeFr
set_cell fr r c v = set fr r (set (frame_row fr r) c v)

-- The loop of `deinterleave`, `n` rounds from round `i`.
unfoldable pub deinterleave_loop : ℕ → ℕ → List ℕ → AmbeFr → AmbeFr
deinterleave_loop zero i dibits fr = fr
deinterleave_loop (suc n) i dibits fr =
    let d = get_or dibits i 0 in
    let fr' = set_cell fr (get_or rw_table i 0) (get_or rx_table i 0) (bit_and (d / 2) 1) in
    let fr'' = set_cell fr' (get_or ry_table i 0) (get_or rz_table i 0) (bit_and d 1) in
    deinterleave_loop n (suc i) dibits fr''

abbrev pub zero_frame : AmbeFr
zero_frame = replicate 4 (replicate 24 0)

unfoldable pub deinterleave : List ℕ → AmbeFr
unfolding deinterleave_loop
deinterleave dibits = deinterleave_loop 36 0 dibits zero_frame

unfoldable pub payload_bits : List ℕ → List ℕ
unfolding byte_bits
payload_bits [] = []
payload_bits (byte ∷ payload) = byte_bits 8 0 byte ++ payload_bits payload

-- `for i in i..i + n { f[..] = (bits[off + 2 * i] << 1) | bits[off + 2 * i + 1] }`
unfoldable pub dibits_from : ℕ → ℕ → ℕ → List ℕ → List ℕ
dibits_from zero i off bits = []
dibits_from (suc n) i off bits =
    bit_or (get_or bits (off + 2 * i) 0 * 2 % 2 ^ 8) (get_or bits (off + 2 * i + 1) 0)
    ∷ dibits_from n (suc i) off bits

unfoldable pub extract_voice_frames : List ℕ → List AmbeFr
extract_voice_frames payload =
    let bits = payload_bits payload in
    let f1 = dibits_from 36 0 0 bits in
    let f2 = dibits_from 18 0 72 bits ++ dibits_from 18 0 156 bits in
    let f3 = dibits_from 36 0 192 bits in deinterleave f1 ∷ deinterleave f2 ∷ deinterleave f3 ∷ []
