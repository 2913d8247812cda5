-- ===== src/Ambed/Protocol.antt =====
-- md380_emu_ambed/src/protocol.rs: packets, their bytes on the wire, and the reader.
-- A byte, a `u16` and the bit pattern of an `i16` are numbers below 2 ^ 8 and 2 ^ 16.
pub mod Decode
pub mod RoundTrip
pub mod Shape
pub mod Sound
pub mod Amb8
mod Tests
use wjmmmdvm.Base.{ℕ, zero, suc, ◌+◌, ◌-◌, ◌*◌, ◌/◌, ◌%◌, ◌^◌, bit_and, List, [], ◌∷◌, ◌++◌}
use wjmmmdvm.Base.{not, Option, none, some, if◌then◌else◌, ltb, leb, ◌==◌}
use wjmmmdvm.Base.{length, take, drop, get_or}
use wjmmmdvm.Base.Result.{Result, ok, err, stuck, ◌>>=◌, map_err, ok_or}
use wjmmmdvm.Base.Io.{IoError, Connection}
use Prim.Native.String.{String}
use mathlib.Core.Option

abbrev pub start_byte : ℕ
start_byte = 0x61

abbrev pub type_control : ℕ
type_control = 0x00

abbrev pub type_channel : ℕ
type_channel = 0x01

abbrev pub type_speech : ℕ
type_speech = 0x02

abbrev pub chand_tag : ℕ
chand_tag = 0x01

abbrev pub speechd_tag : ℕ
speechd_tag = 0x00

abbrev pub speech_samples : ℕ
speech_samples = 160

abbrev pub ambe_voice_bits : ℕ
ambe_voice_bits = 49

abbrev pub ambe_voice_bytes : ℕ
ambe_voice_bytes = 7

pub data ProtocolError : Type 0 where
  io : IoError → ProtocolError
  malformed : String → ProtocolError
  too_large : ℕ → ProtocolError

pub data Packet : Type 0 where
  control : List ℕ → Packet
  channel : ℕ → List ℕ → Packet
  speech : List ℕ → Packet

-- The wire header: `repr(C, packed)` with a big-endian `u16`.
pub record PacketHeader : Type 0 where
  pub start : ℕ
  pub length : ℕ
  pub type_byte : ℕ

abbrev pub be_bytes : ℕ → List ℕ
be_bytes w = w / 256 ∷ w % 256 ∷ []

unfoldable pub header_bytes : PacketHeader → List ℕ
header_bytes h = h.start ∷ (be_bytes h.length ++ h.type_byte ∷ [])

unfoldable pub header_of_bytes : List ℕ → PacketHeader
header_of_bytes b = record {
  start = get_or b 0 0;
  length = get_or b 1 0 * 256 + get_or b 2 0;
  type_byte = get_or b 3 0;
}

-- The sub-headers of Channel and Speech payloads: a tag and a count, a byte each.
pub record SubHeader : Type 0 where
  pub tag : ℕ
  pub count : ℕ

unfoldable pub sub_header_bytes : SubHeader → List ℕ
sub_header_bytes h = h.tag ∷ h.count ∷ []

unfoldable pub sub_header_of_bytes : List ℕ → SubHeader
sub_header_of_bytes b = record { tag = get_or b 0 0; count = get_or b 1 0 }

-- `payload_length as u16` wraps.
unfoldable pub build : ℕ → List ℕ → List ℕ
unfolding header_bytes
build type_byte payload_after_type =
    let payload_length = (1 + length payload_after_type) % 2 ^ 16 in
    let header : PacketHeader = record {
      start = start_byte;
      length = payload_length;
      type_byte = type_byte;
    } in
    header_bytes header ++ payload_after_type

-- Each sample as a big-endian `i16`.
unfoldable pub samples_be : List ℕ → List ℕ
samples_be [] = []
samples_be (s ∷ rest) = be_bytes s ++ samples_be rest

-- `samples.len() as u8` wraps.
unfoldable pub to_bytes : Packet → List ℕ
unfolding sub_header_bytes samples_be build
to_bytes (control payload) = build type_control payload
to_bytes (channel bit_count bytes) =
    build type_channel (sub_header_bytes (record { tag = chand_tag; count = bit_count }) ++ bytes)
to_bytes (speech samples) =
    let header : SubHeader = record { tag = speechd_tag; count = length samples % 2 ^ 8 } in
    build type_speech (sub_header_bytes header ++ samples_be samples)

-- `split_at_checked`
abbrev pub split_at? {ℓ} : {A : Type ℓ} → ℕ → List A → Option (List A × List A)
split_at? zero xs = some ([], xs)
split_at? (suc n) [] = none
split_at? (suc n) (x ∷ xs) = Option.map (λ p. (x ∷ p.0, p.1)) (split_at? n xs)

unfoldable pub div_ceil : ℕ → ℕ → ℕ
div_ceil n d = (n + d - 1) / d

unfoldable pub parse_channel : List ℕ → Result ProtocolError Packet
unfolding sub_header_of_bytes div_ceil
parse_channel payload = do
  (hdr_bytes, rest) ← ok_or (split_at? 2 payload) (malformed "channel payload < 2 bytes")
  let hdr = sub_header_of_bytes hdr_bytes
  let expected = div_ceil hdr.count 8
  if not (hdr.tag == chand_tag)
      then err (malformed "channel: missing CHAND tag")
      else if ltb (length rest) expected
      then err (malformed "channel: truncated AMBE data")
      else ok (channel hdr.count (take expected rest))

-- A byte slice of even length as big-endian `i16`s.
unfoldable pub samples_of_be : List ℕ → List ℕ
samples_of_be [] = []
samples_of_be (hi ∷ []) = []
samples_of_be (hi ∷ lo ∷ rest) = (hi * 256 + lo) ∷ samples_of_be rest

unfoldable pub parse_speech : List ℕ → Result ProtocolError Packet
unfolding sub_header_of_bytes samples_of_be
parse_speech payload = do
  (hdr_bytes, rest) ← ok_or (split_at? 2 payload) (malformed "speech payload < 2 bytes")
  let hdr = sub_header_of_bytes hdr_bytes
  let want = hdr.count * 2
  if not (hdr.tag == speechd_tag)
      then err (malformed "speech: missing SPEECHD tag")
      else if ltb (length rest) want
      then err (malformed "speech: truncated PCM data")
      else ok (speech (samples_of_be (take want rest)))

-- The last `match` of `read_packet`.
unfoldable pub parse_payload : ℕ → List ℕ → Result ProtocolError Packet
unfolding parse_channel parse_speech
parse_payload type_byte payload =
    if type_byte == type_control
    then ok (control payload)
    else if type_byte == type_channel
    then parse_channel payload
    else if type_byte == type_speech
    then parse_speech payload
    else err (malformed "unknown packet type")

module _ (net : Connection) where
  open net use {Conn, read_exact, write_all, flush}

  -- The loop of `read_packet`: skip bytes up to the start byte.
  unfoldable pub resync : ℕ → Conn → Result ProtocolError (ℕ × Conn)
  resync zero c = stuck
  resync (suc fuel) c = do
    (first, c') ← map_err io (read_exact 1 c)
    let again = resync fuel c'
    if get_or first 0 0 == start_byte then ok (get_or first 0 0, c') else again

  -- The rest of `read_packet`, once the start byte is there.
  unfoldable pub read_frame : ℕ × Conn → Result ProtocolError (Packet × Conn)
  unfolding header_of_bytes parse_payload
  read_frame (start, c₁) = do
    (more, c₂) ← map_err io (read_exact 3 c₁)
    let hdr = header_of_bytes (start ∷ more)
    if hdr.length == 0
        then err (malformed "zero length")
        else if ltb 4096 hdr.length
        then err (too_large hdr.length)
        else do
          (payload, c₃) ← map_err io (read_exact (hdr.length - 1) c₂)
          packet ← parse_payload hdr.type_byte payload
          ok (packet, c₃)

  unfoldable pub read_packet : ℕ → Conn → Result ProtocolError (Packet × Conn)
  unfolding resync read_frame
  read_packet fuel c = resync fuel c >>= read_frame

  unfoldable pub write_packet : Packet → Conn → Result ProtocolError Conn
  unfolding to_bytes
  write_packet packet c = do c' ← map_err io (write_all (to_bytes packet) c); map_err io (flush c')

-- The 8-byte frame of md380-emu: a status byte, 48 bits, and the last bit in bit 0 of byte 7.
unfoldable pub build_channel_from_amb8 : List ℕ → Packet
build_channel_from_amb8 amb8 =
    channel ambe_voice_bits (take 6 (drop 1 amb8) ++ bit_and (get_or amb8 7 0) 0x01 * 2 ^ 7 ∷ [])

unfoldable pub amb8_from_channel : ℕ → List ℕ → Result ProtocolError (List ℕ)
amb8_from_channel bit_count bytes =
    if not (bit_count == ambe_voice_bits)
    then err (malformed "channel bit_count must be 49 for md380-emu raw AMBE")
    else if ltb (length bytes) ambe_voice_bytes
    then err (malformed "channel data shorter than 7 bytes")
    else ok (0 ∷ (take 6 bytes ++ bit_and (get_or bytes 6 0 / 2 ^ 7) 0x01 ∷ []))
