-- ===== src/Sip/AmbeClient/Daemon.antt =====
-- `decode` of mmdvm_sip/src/ambe_codec_client.rs against the daemon of md380_emu_ambed/src/server.rs.
use wjmmmdvm.Base.{
  ℕ, ◌<◌, ◌≡◌, refl, sym, ap, ◌∙◌, arith, List, [], ◌∷◌, ◌++◌, length, Option, some, none,
  Option-cases, inl, inr,
}
use wjmmmdvm.Base.{append-nil, true, ◌==◌}
use wjmmmdvm.Base.Result.{Result, ok, err}
use wjmmmdvm.Base.Io.{Wire, Connection, IsWritable}
use wjmmmdvm.Ambed.Protocol as Protocol
use wjmmmdvm.Ambed.Protocol.RoundTrip.{read_packet-to_bytes}
use wjmmmdvm.Ambed.Codec.Contract.{IsPcm}
use wjmmmdvm.Ambed.Server.{Codec, Worker, running, dead, reply_dropped, ServerError, request}
use wjmmmdvm.Ambed.Server.Session.{
  session, session_form, session_after, respond, wire_of, amb8_of, map_ok,
}
use wjmmmdvm.Sip.AmbeClient as Client
use wjmmmdvm.Sip.AmbeClient.Same.{recv_packet-Same}

-- The request is what the daemon reads as a Channel packet.
abbrev pub request_packet : List ℕ → Protocol.Packet
request_packet ambe = Protocol.channel 49 ambe

one_packet :
    (p : Protocol.Packet) (rest : List ℕ) → wire_of (p ∷ []) ++ rest ≡ Protocol.to_bytes p ++ rest
unfolding wire_of
one_packet p rest = ap (λ bs. bs ++ rest) (append-nil (Protocol.to_bytes p))

module _ {S : Type 0} where
  ok_ne_err :
      {x : ServerError} {w v : Worker S} {ps : List Protocol.Packet}
      → ◌≡◌ {A = Result ServerError (List Protocol.Packet) × Worker S} (err x, w) (ok ps, v)
      → ⊥
  ok_ne_err h = cc

  ok_parts :
      {w v : Worker S} {ps qs : List Protocol.Packet}
      → ◌≡◌ {A = Result ServerError (List Protocol.Packet) × Worker S} (ok ps, w) (ok qs, v)
      → (ps ≡ qs) × (w ≡ v)
  ok_parts h = (cc, cc)

module _ (net : Connection) (writable : IsWritable net) where
  open net use {Conn, view, write_all, flush, write_effect, flush_effect}

  send_packet_lem :
      (ambe : List ℕ) (c : Conn)
      → (c' : Conn) × (Client.send_packet net 1 (1 ∷ 49 ∷ ambe) c ≡ ok c')
        × (view c'
            ≡ record (view c) { sent = (view c).sent ++ Protocol.to_bytes (request_packet ambe) })
  unfolding Client.send_packet Protocol.to_bytes
  send_packet_lem ambe c =
      let (c₁, w) = writable.writes (Protocol.to_bytes (request_packet ambe)) c in
      let (c₂, f) = writable.flushes c₁ in
      (c₂, rw (w, f) refl, flush_effect c₁ c₂ f ∙ write_effect _ c c₁ w)

  pub decode-speech :
      (ambe pcm rest : List ℕ) (fuel : ℕ) (c : Conn)
      → IsPcm pcm
      → (view c).pending ≡ Protocol.to_bytes (Protocol.speech pcm) ++ rest
      → length (view c).pending < fuel
      → (c' : Conn) × (Client.decode net fuel ambe c ≡ ok (pcm, c'))
        × (view c' ≡ record (view c) {
          pending = rest;
          sent = (view c).sent ++ Protocol.to_bytes (request_packet ambe);
        })
  unfolding Client.decode Client.samples_of_reply
  decode-speech ambe pcm rest fuel c p e h =
      let (c₁, w, v) = send_packet_lem ambe c in
      let same = ap (λ (x : Wire). x.pending) v in
      let (c₂, r, u) =
        read_packet-to_bytes net [] rest (Protocol.speech pcm) fuel c₁ tt
          (omega (arith, p.size), p.halves) (same ∙ e) (omega (arith, ap length same)) in
      let got : Client.recv_packet net fuel c₁ ≡ ok (Client.speech pcm, c₂) =
        rw r at (recv_packet-Same net fuel c₁) in
      let full : (length pcm == 160) ≡ true = ground (arith, p.size) in
      (c₂, rw (w, got, full) refl, u ∙ ap (λ (x : Wire). record x { pending = rest }) v)

  module _ (codec : Codec) where
    open codec use {State}

    respond_form :
        (ambe : List ℕ) (s : State) (r : Option (List ℕ × State))
        → codec.decode (amb8_of ambe) s ≡ r
        → respond codec (request_packet ambe) (running s) ≡ (
            let (reply, w) = request (λ s'. r) (running s) in
            (map_ok (λ pcm. Protocol.speech pcm ∷ []) reply, w))
    unfolding respond
    respond_form ambe s r e =
        ap
          (λ o.
            let (reply, w) = request (λ s'. o) (running s) in
            (map_ok (λ pcm. Protocol.speech pcm ∷ []) reply, w))
          e

    answer_dead :
        (ambe : List ℕ) (s : State)
        → codec.decode (amb8_of ambe) s ≡ none
        → session codec (request_packet ambe ∷ []) (running s) ≡ (err reply_dropped, dead)
    unfolding session_after
    answer_dead ambe s n =
        session_form codec (request_packet ambe) [] (running s)
        ∙ ap (session_after codec []) (respond_form ambe s none n)

    pub answer_speech :
        (ambe pcm : List ℕ) (s s' : State)
        → codec.decode (amb8_of ambe) s ≡ some (pcm, s')
        → session codec (request_packet ambe ∷ []) (running s)
          ≡ (ok (Protocol.speech pcm ∷ []), running s')
    unfolding session session_after
    answer_speech ambe pcm s s' d =
        session_form codec (request_packet ambe) [] (running s)
        ∙ ap (session_after codec []) (respond_form ambe s (some (pcm, s')) d)

    -- For a daemon whose session, with its codec running, answers a Channel packet of 49 bits
    -- with the client's bytes without error, and a connection that takes every byte written and
    -- has to come the bytes of these replies and then any others: the codec has decoded the
    -- client's bytes, and `decode` of the client with fuel above the number of bytes to come
    -- sends the bytes of exactly that packet, returns the codec's samples and leaves the other
    -- bytes to come.
    pub decode_from_daemon :
        (ambe rest : List ℕ) (s : State) (replies : List Protocol.Packet) (w : Worker State)
        (fuel : ℕ) (c : Conn)
        → session codec (request_packet ambe ∷ []) (running s) ≡ (ok replies, w)
        → (view c).pending ≡ wire_of replies ++ rest
        → length (view c).pending < fuel
        → (pcm : List ℕ) × (s' : State) × (c' : Conn) × (codec.decode (amb8_of ambe) s
            ≡ some (pcm, s'))
          × (w ≡ running s')
          × (Client.decode net fuel ambe c ≡ ok (pcm, c'))
          × (view c' ≡ record (view c) {
            pending = rest;
            sent = (view c).sent ++ Protocol.to_bytes (request_packet ambe);
          })
    decode_from_daemon ambe rest s replies w fuel c a e h =
        elim (Option-cases (codec.decode (amb8_of ambe) s)) [
          | inl n ↦ absurd (ok_ne_err (sym (answer_dead ambe s n) ∙ a))
          | inr ((pcm, s'), d) ↦
              let (r, k) = ok_parts (sym (answer_speech ambe pcm s s' d) ∙ a) in
              let first = e ∙ ap (λ ps. wire_of ps ++ rest) (sym r) in
              let (c', q, v) =
                decode-speech ambe pcm rest fuel c (codec.decode-IsPcm (amb8_of ambe) s s' pcm d)
                  (first ∙ one_packet (Protocol.speech pcm) rest) h in
              (pcm, s', c', d, sym k, q, v)
        ]
