-- ===== src/Ambed/Server.antt =====
-- md380_emu_ambed/src/server.rs: the codec worker and the handler of one connection.
-- A request to the worker and its reply are one step of the model: the worker serves one request
-- at a time, and the handler awaits the reply before it goes on.
pub mod Session
pub mod CodecWorker
pub mod Accept
mod Tests
use wjmmmdvm.Base.{
  ℕ, zero, suc, ◌≡◌, ◌<◌, ◌^◌, List, [], ◌∷◌, not, if◌then◌else◌, ltb, ◌==◌, ◌||◌, Option, none,
  some, length, get_or,
}
use wjmmmdvm.Base.Result.{Result, ok, err, stuck, ◌>>=◌, map_err}
use wjmmmdvm.Base.Io.{unexpected_eof, Connection}
use wjmmmdvm.Ambed.Protocol.{
  Packet, control, channel, speech, ProtocolError, io, read_packet, write_packet,
  build_channel_from_amb8, amb8_from_channel, speech_samples, ambe_voice_bits, ambe_voice_bytes,
}
use wjmmmdvm.Ambed.Protocol.Amb8.{IsAmb8}
use wjmmmdvm.Ambed.Codec.Contract.{IsPcm}

abbrev pub ctrl_prodid : ℕ
ctrl_prodid = 0x30

abbrev pub ctrl_reset : ℕ
ctrl_reset = 0x33

abbrev pub ctrl_ready : ℕ
ctrl_ready = 0x39

abbrev pub ctrl_ratep : ℕ
ctrl_ratep = 0x09

abbrev pub ctrl_ratet : ℕ
ctrl_ratet = 0x0a

-- `b"MD380-EMU\0"`
abbrev pub product : List ℕ
product = 0x4d ∷ 0x44 ∷ 0x33 ∷ 0x38 ∷ 0x30 ∷ 0x2d ∷ 0x45 ∷ 0x4d ∷ 0x55 ∷ 0 ∷ []

-- What the worker thread runs: a codec with a state. `none` is a panic, which ends the thread, as
-- `unimplemented!` does in a build for another machine.
pub record Codec : Type 1 where
  pub State : Type 0
  pub encode : List ℕ → State → Option (List ℕ × State)
  pub decode : List ℕ → State → Option (List ℕ × State)
  pub encode-IsAmb8 :
      (pcm : List ℕ) (s s' : State) (a : List ℕ) → encode pcm s ≡ some (a, s') → IsAmb8 a
  pub decode-IsPcm :
      (a : List ℕ) (s s' : State) (pcm : List ℕ) → decode a s ≡ some (pcm, s') → IsPcm pcm

pub data Worker (S : Type 0) : Type 0 where
  running : S → Worker S
  dead : Worker S

pub data ServerError : Type 0 where
  protocol : ProtocolError → ServerError
  worker_died : ServerError
  reply_dropped : ServerError

-- A request: sent to a dead worker it fails, and a worker that dies of it drops the reply.
abbrev pub request :
    {S : Type 0} → (S → Option (List ℕ × S)) → Worker S → Result ServerError (List ℕ) × Worker S
request op dead = (err worker_died, dead)
request op (running s) = elim (op s) [
  | none ↦ (err reply_dropped, dead)
  | some r ↦ (ok r.0, running r.1)
]

unfoldable pub control_response : ℕ → List ℕ → Packet
control_response tag payload =
    if tag == ctrl_prodid
    then control (ctrl_prodid ∷ product)
    else if tag == ctrl_reset
    then control (ctrl_ready ∷ [])
    else if tag == ctrl_ratep || tag == ctrl_ratet
    then control (tag ∷ 0 ∷ [])
    else control (tag ∷ 0 ∷ [])

module _ (net : Connection) (codec : Codec) where
  open net use {Conn}
  open codec use {State}

  abbrev pub send_reply : Packet → Conn → Result ServerError Conn
  send_reply reply c = map_err protocol (write_packet net reply c)

  -- The `match pkt` of the loop.
  unfoldable pub handle_packet :
      Packet → Conn → Worker State → Result ServerError Conn × Worker State
  handle_packet (control payload) c w =
      (send_reply (control_response (get_or payload 0 0) payload) c, w)
  handle_packet (speech samples) c w =
      if not (length samples == speech_samples)
      then (ok c, w)
      else (let (reply, w') = request (codec.encode samples) w in
          (reply >>= (λ ambe. send_reply (build_channel_from_amb8 ambe) c), w'))
  handle_packet (channel bit_count bytes) c w =
      if not (bit_count == ambe_voice_bits)
      then (ok c, w)
      else if ltb (length bytes) ambe_voice_bytes
      then (ok c, w)
      else elim (amb8_from_channel bit_count bytes) [
        | err e ↦ (ok c, w)
        | stuck ↦ (stuck, w)
        | ok amb8 ↦
            let (reply, w') = request (codec.decode amb8) w in
            (reply >>= (λ pcm. send_reply (speech pcm) c), w')
      ]

  -- The loop, one packet for each unit of fuel.
  unfoldable pub handle_connection :
      ℕ → Conn → Worker State → Result ServerError Conn × Worker State
  handle_connection zero c w = (stuck, w)
  handle_connection (suc fuel) c w = elim (read_packet net (suc fuel) c) [
    | stuck ↦ (stuck, w)
    | err (io unexpected_eof) ↦ (ok c, w)
    | err e ↦ (err (protocol e), w)
    | ok r ↦
        let (outcome, w') = handle_packet r.0 r.1 w in
        elim outcome [
          | ok c' ↦ handle_connection fuel c' w'
          | err e ↦ (err e, w')
          | stuck ↦ (stuck, w')
        ]
  ]
