-- ===== src/Ambed/Server/Session/Handle.antt =====
-- `handle_packet` of md380_emu_ambed/src/server.rs sends the replies that `respond` tells.
use wjmmmdvm.Base.{
  ℕ, ◌/◌, ◌%◌, ◌^◌, ◌≡◌, refl, sym, ap, ◌∙◌, arith, List, [], ◌∷◌, ◌++◌, append-nil,
}
use wjmmmdvm.Base.{
  ◌≢◌, Option, Option-cases, ◌==◌, ltb, Bool-cases, inl, inr, take, get_or, length, bit_and, true,
  false,
}
use wjmmmdvm.Base.Bits.{bit_and-one}
use wjmmmdvm.Base.Result.{Result, ok, err, stuck, ◌>>=◌}
use wjmmmdvm.Base.Io.{Connection, IsWritable}
use wjmmmdvm.Ambed.Protocol.{
  Packet, control, channel, speech, to_bytes, write_packet, amb8_from_channel,
  build_channel_from_amb8, div_ceil,
}
use wjmmmdvm.Ambed.Protocol.RoundTrip.{IsWire}
use wjmmmdvm.Ambed.Server.{
  Codec, Worker, running, dead, ServerError, request, handle_packet, send_reply,
}
use wjmmmdvm.Ambed.Server.Session.{respond, wire_of, amb8_of, map_ok}

amb8_lem :
    (bit_count : ℕ) (bytes : List ℕ)
    → IsWire (channel bit_count bytes)
    → (bit_count == 49) ≡ true
    → (ltb (length bytes) 7 ≡ false) × (amb8_from_channel bit_count bytes ≡ ok (amb8_of bytes))
unfolding amb8_from_channel div_ceil
amb8_lem bit_count bytes (small, size) voice =
    let whole : ltb (length bytes) 7 ≡ false = ground arith in
    let last : bit_and (get_or bytes 6 0 / 2 ^ 7) 1 ≡ get_or bytes 6 0 / 2 ^ 7 % 2 =
      bit_and-one (get_or bytes 6 0 / 2 ^ 7) in
    (whole, rw (voice, whole) (ap (λ b. ok (0 ∷ (take 6 bytes ++ b ∷ []))) last))

module _ (net : Connection) (writable : IsWritable net) where
  open net use {Conn, view, write_all, flush, write_effect, flush_effect}

  pub write_packet_lem :
      (p : Packet) (c : Conn)
      → (c' : Conn) × (write_packet net p c ≡ ok c')
        × (view c' ≡ record (view c) { sent = (view c).sent ++ to_bytes p })
  unfolding write_packet
  write_packet_lem p c =
      let (c₁, w) = writable.writes (to_bytes p) c in
      let (c₂, f) = writable.flushes c₁ in
      (c₂, rw (w, f) refl, flush_effect c₁ c₂ f ∙ write_effect (to_bytes p) c c₁ w)

  module _ (codec : Codec) where
    open codec use {State}

    abbrev pub Answer : Type 0
    Answer = Result ServerError (List Packet) × Worker State

    -- The answer is what the handler sends, or its error is the handler's.
    abbrev pub Sent : Conn → Answer → Result ServerError Conn × Worker State → Type 0
    Sent c (ok replies, w) out =
        (c' : Conn) × (out ≡ (ok c', w))
        × (view c' ≡ record (view c) { sent = (view c).sent ++ wire_of replies })
    Sent c (err e, w) out = out ≡ (err e, w)
    Sent c (stuck, w) out = ⊥

    Sent-nothing : (c : Conn) (w : Worker State) → Sent c (ok [], w) (ok c, w)
    unfolding wire_of
    Sent-nothing c w =
        (c, refl, ap (λ s. record (view c) { sent = s }) (sym (append-nil (view c).sent)))

    Sent-reply :
        (c : Conn) (w : Worker State) (p : Packet)
        → Sent c (ok (p ∷ []), w) (send_reply net codec p c, w)
    unfolding wire_of
    Sent-reply c w p =
        let (c', e, v) = write_packet_lem p c in
        (
          c',
          rw e refl,
          v
              ∙ ap (λ s. record (view c) { sent = (view c).sent ++ s })
                  (sym (append-nil (to_bytes p))),
        )

    Sent-request :
        (c : Conn) (w : Worker State) (reply : Result ServerError (List ℕ)) (f : List ℕ → Packet)
        → reply ≢ stuck
        → Sent c
            (map_ok (λ a. f a ∷ []) reply, w)
            (reply >>= (λ a. send_reply net codec (f a) c), w)
    Sent-request c w (ok a) f h = Sent-reply c w (f a)
    Sent-request c w (err e) f h = refl
    Sent-request c w stuck f h = absurd (h refl)

    request-ne-stuck :
        (op : State → Option (List ℕ × State)) (w : Worker State) → (request op w).0 ≢ stuck
    request-ne-stuck op dead = λ h. cc
    request-ne-stuck op (running s) = elim (Option-cases (op s)) [
      | inl none_ ↦ rw (request, none_) (λ h. cc)
      | inr (r, some_) ↦ rw (request, some_) (λ h. cc)
    ]

    pub handle_packet-Sent :
        (p : Packet) (c : Conn) (w : Worker State)
        → IsWire p
        → Sent c (respond codec p w) (handle_packet net codec p c w)
    unfolding respond handle_packet
    handle_packet-Sent (control payload) c w h = Sent-reply c w _
    handle_packet-Sent (speech samples) c w h = elim (Bool-cases (length samples == 160)) [
      | inl full ↦
          rw full
            (Sent-request c _ _ build_channel_from_amb8 (request-ne-stuck (codec.encode samples) w))
      | inr other ↦ rw other (Sent-nothing c w)
    ]
    handle_packet-Sent (channel bit_count bytes) c w h = elim (Bool-cases (bit_count == 49)) [
      | inl voice ↦
          let (whole, frame) = amb8_lem bit_count bytes h voice in
          rw (voice, whole, frame)
            (Sent-request c _ _ speech (request-ne-stuck (codec.decode (amb8_of bytes)) w))
      | inr other ↦ rw other (Sent-nothing c w)
    ]
