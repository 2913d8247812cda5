-- ===== src/Sip/AmbeClient.antt =====
-- mmdvm_sip/src/ambe_codec_client.rs: the client of the AMBE daemon, with its own packet parser.
pub mod Same
pub mod Daemon
pub mod Handshake
pub mod Ends
mod Tests
use wjmmmdvm.Base.{
  ℕ, zero, suc, ◌+◌, ◌-◌, ◌*◌, ◌/◌, ◌%◌, ◌^◌, List, [], ◌∷◌, ◌++◌, length, take, drop, get_or,
}
use wjmmmdvm.Base.{not, ◌||◌, if◌then◌else◌, ltb, ◌==◌}
use wjmmmdvm.Base.Result.{Result, ok, err, stuck, ◌>>=◌, map_err}
use wjmmmdvm.Base.Io.{IoError, Connection}
use Prim.Native.String.{String}

abbrev pub start_byte : ℕ
start_byte = 0x61

abbrev pub type_control : ℕ
type_control = 0x00

abbrev pub type_channel : ℕ
type_channel = 0x01

abbrev pub type_speech : ℕ
type_speech = 0x02

abbrev pub chand_tag : ℕ
chand_tag = 0x01

abbrev pub speechd_tag : ℕ
speechd_tag = 0x00

abbrev pub ctrl_prodid : ℕ
ctrl_prodid = 0x30

abbrev pub ctrl_reset : ℕ
ctrl_reset = 0x33

abbrev pub ctrl_ratet : ℕ
ctrl_ratet = 0x0a

abbrev pub dmr_rate_index : ℕ
dmr_rate_index = 33

abbrev pub frame_pcm_samples : ℕ
frame_pcm_samples = 160

abbrev pub ambe_voice_bits : ℕ
ambe_voice_bits = 49

pub data CodecError : Type 0 where
  connect : IoError → CodecError
  io : IoError → CodecError
  malformed : String → CodecError
  unexpected_reply : ℕ → CodecError
  wrong_bit_count : ℕ → ℕ → CodecError
  wrong_sample_count : ℕ → ℕ → CodecError

pub data Packet : Type 0 where
  control : List ℕ → Packet
  channel : ℕ → List ℕ → Packet
  speech : List ℕ → Packet

unfoldable pub packet_type_byte : Packet → ℕ
packet_type_byte (control payload) = type_control
packet_type_byte (channel bit_count bytes) = type_channel
packet_type_byte (speech samples) = type_speech

unfoldable pub parse_channel : List ℕ → Result CodecError Packet
parse_channel payload =
    let bit_count = get_or payload 1 0 in
    let want = (bit_count + 8 - 1) / 8 in
    if ltb (length payload) 2
    then err (malformed "channel payload < 2 bytes")
    else if not (get_or payload 0 0 == chand_tag)
    then err (malformed "channel: missing CHAND tag")
    else if ltb (length payload) (2 + want)
    then err (malformed "channel: truncated")
    else ok (channel bit_count (take want (drop 2 payload)))

-- `chunks_exact(2)` as big-endian `i16`s.
unfoldable pub chunks_be : List ℕ → List ℕ
chunks_be [] = []
chunks_be (a ∷ []) = []
chunks_be (a ∷ b ∷ rest) = (a * 256 + b) ∷ chunks_be rest

unfoldable pub parse_speech : List ℕ → Result CodecError Packet
unfolding chunks_be
parse_speech payload =
    let samples = get_or payload 1 0 in
    let want = samples * 2 in
    if ltb (length payload) 2
    then err (malformed "speech payload < 2 bytes")
    else if not (get_or payload 0 0 == speechd_tag)
    then err (malformed "speech: missing SPEECHD tag")
    else if ltb (length payload) (2 + want)
    then err (malformed "speech: truncated")
    else ok (speech (chunks_be (take want (drop 2 payload))))

-- The last `match` of `recv_packet`.
unfoldable pub parse_body : ℕ → List ℕ → Result CodecError Packet
unfolding parse_channel parse_speech
parse_body type_byte payload =
    if type_byte == type_control
    then ok (control payload)
    else if type_byte == type_channel
    then parse_channel payload
    else if type_byte == type_speech
    then parse_speech payload
    else err (unexpected_reply type_byte)

module _ (net : Connection) where
  open net use {Conn, read_exact, write_all, flush}

  -- The loop of `recv_packet`: up to the start byte, which is then known.
  unfoldable pub wait_start : ℕ → Conn → Result CodecError Conn
  wait_start zero c = stuck
  wait_start (suc fuel) c = do
    (first, c') ← map_err io (read_exact 1 c)
    let again = wait_start fuel c'
    if get_or first 0 0 == start_byte then ok c' else again

  unfoldable pub recv_body : Conn → Result CodecError (Packet × Conn)
  unfolding parse_body
  recv_body c₁ = do
    (hdr, c₂) ← map_err io (read_exact 3 c₁)
    let len = get_or hdr 0 0 * 256 + get_or hdr 1 0
    if len == 0 || ltb 4096 len then err (malformed "bad length") else do
      (payload, c₃) ← map_err io (read_exact (len - 1) c₂)
      packet ← parse_body (get_or hdr 2 0) payload
      ok (packet, c₃)

  unfoldable pub recv_packet : ℕ → Conn → Result CodecError (Packet × Conn)
  unfolding wait_start recv_body
  recv_packet fuel c = wait_start fuel c >>= recv_body

  -- `(1 + body.len()) as u16` wraps.
  unfoldable pub send_packet : ℕ → List ℕ → Conn → Result CodecError Conn
  send_packet type_byte body c =
      let len = (1 + length body) % 2 ^ 16 in
      let buf = start_byte ∷ len / 256 ∷ len % 256 ∷ type_byte ∷ body in
      do c' ← map_err io (write_all buf c); map_err io (flush c')

  unfoldable pub send_control : List ℕ → Conn → Result CodecError Conn
  unfolding send_packet
  send_control payload c = send_packet type_control payload c

  -- The replies are read and dropped; the product name goes to the log only.
  unfoldable pub handshake : ℕ → Conn → Result CodecError Conn
  unfolding send_control recv_packet
  handshake fuel c = do
    c₁ ← send_control (ctrl_reset ∷ []) c
    (ack, c₂) ← recv_packet fuel c₁
    c₃ ← send_control (ctrl_prodid ∷ []) c₂
    (prodid, c₄) ← recv_packet fuel c₃
    c₅ ← send_control (ctrl_ratet ∷ dmr_rate_index ∷ []) c₄
    (rate, c₆) ← recv_packet fuel c₅
    ok c₆

  -- The `match` of `decode` on the reply.
  unfoldable pub samples_of_reply : Packet × Conn → Result CodecError (List ℕ × Conn)
  unfolding packet_type_byte
  samples_of_reply (speech samples, c) =
      if not (length samples == frame_pcm_samples)
      then err (wrong_sample_count (length samples) frame_pcm_samples)
      else ok (samples, c)
  samples_of_reply (other, c) = err (unexpected_reply (packet_type_byte other))

  unfoldable pub decode : ℕ → List ℕ → Conn → Result CodecError (List ℕ × Conn)
  unfolding send_packet recv_packet samples_of_reply
  decode fuel ambe c = do
    c₁ ← send_packet type_channel (chand_tag ∷ ambe_voice_bits ∷ ambe) c
    reply ← recv_packet fuel c₁
    samples_of_reply reply
