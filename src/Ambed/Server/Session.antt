-- ===== src/Ambed/Server/Session.antt =====
-- What the handler of md380_emu_ambed/src/server.rs answers, told without a connection: the
-- replies to one packet, and those to a sequence of packets.
pub mod Handle
pub mod Serve
pub mod Replies
pub mod Answers
pub mod Ends
use wjmmmdvm.Base.{
  ℕ, ◌/◌, ◌%◌, ◌^◌, ◌≡◌, refl, List, [], ◌∷◌, ◌++◌, if◌then◌else◌, ◌==◌, take, get_or, length,
}
use wjmmmdvm.Base.Result.{Result, ok, err, stuck}
use wjmmmdvm.Ambed.Protocol.{Packet, control, channel, speech, to_bytes, build_channel_from_amb8}
use wjmmmdvm.Ambed.Server.{Codec, Worker, ServerError, request, control_response}

abbrev pub map_ok : {A B : Type 0} → (A → B) → Result ServerError A → Result ServerError B
map_ok f (ok a) = ok (f a)
map_ok f (err e) = err e
map_ok f stuck = stuck

-- The 8-byte frame for 7 bytes of Channel data.
abbrev pub amb8_of : List ℕ → List ℕ
amb8_of bytes = 0 ∷ (take 6 bytes ++ get_or bytes 6 0 / 2 ^ 7 % 2 ∷ [])

-- The bytes of some packets, one behind the other.
unfoldable pub wire_of : List Packet → List ℕ
wire_of [] = []
wire_of (p ∷ ps) = to_bytes p ++ wire_of ps

module _ (codec : Codec) where
  open codec use {State}

  -- A control packet has one reply, 160 samples or 49 bits have one of the other kind, and all
  -- else has none.
  unfoldable pub respond : Packet → Worker State → Result ServerError (List Packet) × Worker State
  respond (control payload) w = (ok (control_response (get_or payload 0 0) payload ∷ []), w)
  respond (speech samples) w =
      if length samples == 160
      then (let (reply, w') = request (codec.encode samples) w in
          (map_ok (λ a. build_channel_from_amb8 a ∷ []) reply, w'))
      else (ok [], w)
  respond (channel bit_count bytes) w =
      if bit_count == 49
      then (let (reply, w') = request (codec.decode (amb8_of bytes)) w in
          (map_ok (λ pcm. speech pcm ∷ []) reply, w'))
      else (ok [], w)

  -- The packets in order, with the worker handed on, up to the first error.
  unfoldable pub session :
      List Packet → Worker State → Result ServerError (List Packet) × Worker State
  session [] w = (ok [], w)
  session (p ∷ ps) w =
      let (r, w') = respond p w in
      elim r [
        | ok replies ↦
            let (rest, w'') = session ps w' in (map_ok (λ more. replies ++ more) rest, w'')
        | err e ↦ (err e, w')
        | stuck ↦ (stuck, w')
      ]

  -- The session after the answer to its first packet.
  unfoldable pub session_after :
      List Packet
      → Result ServerError (List Packet) × Worker State
      → Result ServerError (List Packet) × Worker State
  session_after ps a = elim a.0 [
    | ok replies ↦ let (rest, w) = session ps a.1 in (map_ok (λ more. replies ++ more) rest, w)
    | err e ↦ (err e, a.1)
    | stuck ↦ (stuck, a.1)
  ]

  pub session_form :
      (p : Packet) (ps : List Packet) (w : Worker State)
      → session (p ∷ ps) w ≡ session_after ps (respond p w)
  unfolding session session_after
  session_form p ps w = refl
