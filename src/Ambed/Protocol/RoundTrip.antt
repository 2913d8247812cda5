-- ===== src/Ambed/Protocol/RoundTrip.antt =====
-- What `to_bytes` of md380_emu_ambed/src/protocol.rs writes, `read_packet` reads back.
use wjmmmdvm.Base.{ℕ, ◌+◌, ◌-◌, ◌*◌, ◌/◌, ◌%◌, ◌^◌, ◌≤◌, ◌<◌, ◌≡◌, ◌≢◌, refl, arith}
use wjmmmdvm.Base.{List, [], ◌∷◌, ◌++◌, length, length-append, All, ap, ◌∙◌}
use wjmmmdvm.Base.{take-append, drop-append, take_all}
use wjmmmdvm.Base.Result.{ok}
use wjmmmdvm.Base.Io.{Connection}
use wjmmmdvm.Ambed.Protocol.{Packet, control, channel, speech, start_byte}
use wjmmmdvm.Ambed.Protocol.{type_control, type_channel, type_speech, chand_tag, speechd_tag}
use wjmmmdvm.Ambed.Protocol.{build, to_bytes, parse_payload, parse_channel, parse_speech, div_ceil}
use wjmmmdvm.Ambed.Protocol.{samples_be, samples_of_be, read_packet}
use wjmmmdvm.Ambed.Protocol.Decode.{got, with_rest, decode, read_packet_refines}

-- A packet that fits its length and count fields and the reader's limit.
abbrev pub IsWire : Packet → Type 0
IsWire (control payload) = length payload ≤ 4095
IsWire (channel bit_count bytes) = (bit_count < 256) × (length bytes ≡ div_ceil bit_count 8)
IsWire (speech samples) = (length samples ≤ 255) × All (λ s. s < 2 ^ 16) samples

decode-build :
    (ty : ℕ) (payload rest : List ℕ)
    → length payload ≤ 4095
    → decode (build ty payload ++ rest) ≡ with_rest rest (parse_payload ty payload)
unfolding decode build
decode-build ty payload rest h = ground (
  arith,
  length-append payload rest,
  take-append ((1 + length payload) % 2 ^ 16 / 256 * 256 + (1 + length payload) % 2 ^ 16 % 256 - 1)
      payload rest (omega arith),
  drop-append ((1 + length payload) % 2 ^ 16 / 256 * 256 + (1 + length payload) % 2 ^ 16 % 256 - 1)
      payload rest (omega arith),
)

pub samples_of_be-samples_be :
    (s : List ℕ) → All (λ x. x < 2 ^ 16) s → samples_of_be (samples_be s) ≡ s
unfolding samples_of_be samples_be
samples_of_be-samples_be [] h = refl
samples_of_be-samples_be (x ∷ s) h =
    rw (samples_of_be-samples_be s h.1) (ap (λ (y : ℕ). y ∷ s) (omega arith))

pub length-samples_be : (s : List ℕ) → length (samples_be s) ≡ length s * 2
unfolding samples_be
length-samples_be [] = refl
length-samples_be (x ∷ s) = omega (arith, length-samples_be s)

parse_channel-bytes :
    (n : ℕ) (bytes : List ℕ)
    → length bytes ≡ div_ceil n 8
    → parse_channel (chand_tag ∷ n ∷ bytes) ≡ ok (channel n bytes)
unfolding parse_channel
parse_channel-bytes n bytes h = ground (arith, take_all ((n + 8 - 1) / 8) bytes)

parse_speech-bytes :
    (s : List ℕ)
    → length s ≤ 255
    → All (λ x. x < 2 ^ 16) s
    → parse_speech (speechd_tag ∷ length s ∷ samples_be s) ≡ ok (speech s)
unfolding parse_speech
parse_speech-bytes s h k = ground (
  arith,
  length-samples_be s,
  take_all (length s * 2) (samples_be s),
  samples_of_be-samples_be s k,
)

pub decode-to_bytes :
    (p : Packet) (rest : List ℕ) → IsWire p → decode (to_bytes p ++ rest) ≡ got p rest
unfolding to_bytes parse_payload
decode-to_bytes (control payload) rest h = decode-build type_control payload rest h
decode-to_bytes (channel n bytes) rest h =
    decode-build type_channel (chand_tag ∷ n ∷ bytes) rest (unfold div_ceil in omega arith)
    ∙ ap (with_rest rest) (parse_channel-bytes n bytes h.1)
decode-to_bytes (speech samples) rest h =
    ap (λ (k : ℕ). decode (build type_speech (speechd_tag ∷ k ∷ samples_be samples) ++ rest))
      (omega arith)
    ∙ decode-build type_speech (speechd_tag ∷ length samples ∷ samples_be samples) rest
        (omega (arith, length-samples_be samples))
    ∙ ap (with_rest rest) (parse_speech-bytes samples h.0 h.1)

pub decode-skip :
    (junk xs : List ℕ) → All (λ b. b ≢ start_byte) junk → decode (junk ++ xs) ≡ decode xs
unfolding decode
decode-skip [] xs h = refl
decode-skip (b ∷ junk) xs h = ground (arith, decode-skip junk xs h.1, h.0)

module _ (net : Connection) where
  open net use {Conn, view}

  -- On a connection that has to come stray bytes, none of them the start byte, then `to_bytes p`,
  -- then any bytes, `read_packet` with fuel above their number returns `p` and leaves exactly the
  -- last bytes to come, for every packet `p` that fits its count and length fields and the
  -- reader's limit.
  pub read_packet-to_bytes :
      (junk rest : List ℕ) (p : Packet) (fuel : ℕ) (c : Conn)
      → All (λ b. b ≢ start_byte) junk
      → IsWire p
      → (view c).pending ≡ junk ++ (to_bytes p ++ rest)
      → length (view c).pending < fuel
      → (c' : Conn) × (read_packet net fuel c ≡ ok (p, c'))
        × (view c' ≡ record (view c) { pending = rest })
  read_packet-to_bytes junk rest p fuel c skip fits e h =
      rw (e, decode-skip junk (to_bytes p ++ rest) skip, decode-to_bytes p rest fits) at
        (read_packet_refines net fuel c h)
