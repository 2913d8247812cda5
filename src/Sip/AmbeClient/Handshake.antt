-- ===== src/Sip/AmbeClient/Handshake.antt =====
-- `handshake` of mmdvm_sip/src/ambe_codec_client.rs against the daemon of md380_emu_ambed/src/server.rs.
use wjmmmdvm.Base.{
  ℕ, ◌≤◌, ◌<◌, ◌≡◌, refl, sym, ap, ◌∙◌, arith, List, [], ◌∷◌, ◌++◌, length, length-append,
  append-nil, append_assoc,
}
use wjmmmdvm.Base.Result.{ok}
use wjmmmdvm.Base.Io.{Wire, Connection, IsWritable}
use wjmmmdvm.Ambed.Protocol as Protocol
use wjmmmdvm.Ambed.Protocol.RoundTrip.{read_packet-to_bytes}
use wjmmmdvm.Ambed.Server.{Codec, Worker, product, control_response}
use wjmmmdvm.Ambed.Server.Session.{session, respond, wire_of}
use wjmmmdvm.Sip.AmbeClient as Client
use wjmmmdvm.Sip.AmbeClient.Same.{recv_packet-Same}

-- What the client sends, and what the daemon answers.
abbrev pub greetings : List Protocol.Packet
greetings =
    Protocol.control (0x33 ∷ [])
    ∷ Protocol.control (0x30 ∷ [])
    ∷ Protocol.control (0x0a ∷ 33 ∷ [])
    ∷ []

abbrev pub answers : List Protocol.Packet
answers =
    Protocol.control (0x39 ∷ [])
    ∷ Protocol.control (0x30 ∷ product)
    ∷ Protocol.control (0x0a ∷ 0 ∷ [])
    ∷ []

answers_lem :
    (codec : Codec) (w : Worker (codec.State)) → session codec greetings w ≡ (ok answers, w)
unfolding session respond control_response
answers_lem codec w = refl

in_order : (s b₁ b₂ b₃ : List ℕ) → ((s ++ b₁) ++ b₂) ++ b₃ ≡ s ++ (b₁ ++ (b₂ ++ (b₃ ++ [])))
in_order s b₁ b₂ b₃ =
    append_assoc (s ++ b₁) b₂ b₃
    ∙ append_assoc s b₁ (b₂ ++ b₃)
    ∙ ap (λ t. s ++ (b₁ ++ (b₂ ++ t))) (sym (append-nil b₃))

module _ (net : Connection) (writable : IsWritable net) where
  open net use {Conn, view, write_all, flush, write_effect, flush_effect}

  send_control_lem :
      (payload : List ℕ) (c : Conn)
      → (c' : Conn) × (Client.send_control net payload c ≡ ok c')
        × (view c' ≡ record (view c) {
          sent = (view c).sent ++ Protocol.to_bytes (Protocol.control payload);
        })
  unfolding Client.send_control Client.send_packet Protocol.to_bytes
  send_control_lem payload c =
      let (c₁, w) = writable.writes (Protocol.to_bytes (Protocol.control payload)) c in
      let (c₂, f) = writable.flushes c₁ in
      (c₂, rw (w, f) refl, flush_effect c₁ c₂ f ∙ write_effect _ c c₁ w)

  -- The bytes of some packets in front.
  in_front :
      (p : Protocol.Packet) (ps : List Protocol.Packet) (rest : List ℕ)
      → wire_of (p ∷ ps) ++ rest ≡ Protocol.to_bytes p ++ (wire_of ps ++ rest)
  unfolding wire_of
  in_front p ps rest = append_assoc (Protocol.to_bytes p) (wire_of ps) rest

  -- One request and its reply, with more replies and other bytes behind it.
  exchange :
      (payload reply : List ℕ) (more : List Protocol.Packet) (rest : List ℕ) (fuel : ℕ) (c : Conn)
      → length reply ≤ 4095
      → (view c).pending ≡ wire_of (Protocol.control reply ∷ more) ++ rest
      → length (view c).pending < fuel
      → (c₁ : Conn) × (c₂ : Conn) × (Client.send_control net payload c ≡ ok c₁)
        × (Client.recv_packet net fuel c₁ ≡ ok (Client.control reply, c₂))
        × (view c₂ ≡ record (view c) {
          pending = wire_of more ++ rest;
          sent = (view c).sent ++ Protocol.to_bytes (Protocol.control payload);
        })
        × (length (view c₂).pending < fuel)
  exchange payload reply more rest fuel c fits e h =
      let first = e ∙ in_front (Protocol.control reply) more rest in
      let (c₁, w, v) = send_control_lem payload c in
      let same = ap (λ (x : Wire). x.pending) v in
      let (c₂, r, u) =
        read_packet-to_bytes net [] (wire_of more ++ rest) (Protocol.control reply) fuel c₁ tt fits
          (same ∙ first) (omega (arith, ap length same)) in
      (
        c₁,
        c₂,
        w,
        rw r at (recv_packet-Same net fuel c₁),
        u ∙ ap (λ (x : Wire). record x { pending = wire_of more ++ rest }) v,
        omega (
          arith,
          ap (λ (x : Wire). length x.pending) u,
          ap length first,
          length-append (Protocol.to_bytes (Protocol.control reply)) (wire_of more ++ rest),
        ),
      )

  -- For a daemon in any state, a connection that takes every byte written and has to come the
  -- bytes of the replies of its session to the reset, the product query and the rate, and then
  -- any others, and fuel above the number of bytes: `handshake` succeeds, has sent these three
  -- packets, and leaves the other bytes to come; and the daemon's worker is as it was.
  pub handshake_with_daemon :
      (codec : Codec) (w w' : Worker (codec.State)) (replies : List Protocol.Packet) (rest : List ℕ)
      (fuel : ℕ) (c : Conn)
      → session codec greetings w ≡ (ok replies, w')
      → (view c).pending ≡ wire_of replies ++ rest
      → length (view c).pending < fuel
      → (w' ≡ w)
        × ((c' : Conn) × (Client.handshake net fuel c ≡ ok c')
            × (view c'
                ≡ record (view c) { pending = rest; sent = (view c).sent ++ wire_of greetings }))
  unfolding Client.handshake wire_of
  handshake_with_daemon codec w w' replies rest fuel c s e h =
      let same = sym (answers_lem codec w) ∙ s in
      let known : replies ≡ answers = cc in
      let first = e ∙ ap (λ ps. wire_of ps ++ rest) known in
      let (c₁, c₂, w₁, r₁, v₁, h₂) =
        exchange (0x33 ∷ []) (0x39 ∷ []) (p₂ ∷ p₃ ∷ []) rest fuel c (omega arith) first h in
      let second = ap (λ (x : Wire). x.pending) v₁ in
      let (c₃, c₄, w₂, r₂, v₂, h₃) =
        exchange (0x30 ∷ []) (0x30 ∷ product) (p₃ ∷ []) rest fuel c₂ (omega arith) second h₂ in
      let third = ap (λ (x : Wire). x.pending) v₂ in
      let (c₅, c₆, w₃, r₃, v₃, h₄) =
        exchange (0x0a ∷ 33 ∷ []) (0x0a ∷ 0 ∷ []) [] rest fuel c₄ (omega arith) third h₃ in
      let sent : view c₆
          ≡ record (view c) { pending = rest; sent = (view c).sent ++ wire_of greetings } =
        v₃
        ∙ ap (λ (x : Wire). record x { pending = rest; sent = x.sent ++ b₃ })
            (v₂
              ∙ ap
                  (λ (x : Wire). record x {
                    pending = wire_of (p₃ ∷ []) ++ rest;
                    sent = x.sent ++ b₂;
                  })
                  v₁)
        ∙ ap (λ s. record (view c) { pending = rest; sent = s })
            (in_order (view c).sent b₁ b₂ b₃) in
      (cc, (c₆, rw (w₁, r₁, w₂, r₂, w₃, r₃) refl, sent))
    where
      p₂ : Protocol.Packet
      p₂ = Protocol.control (0x30 ∷ product)

      p₃ : Protocol.Packet
      p₃ = Protocol.control (0x0a ∷ 0 ∷ [])

      b₁ : List ℕ
      b₁ = Protocol.to_bytes (Protocol.control (0x33 ∷ []))

      b₂ : List ℕ
      b₂ = Protocol.to_bytes (Protocol.control (0x30 ∷ []))

      b₃ : List ℕ
      b₃ = Protocol.to_bytes (Protocol.control (0x0a ∷ 33 ∷ []))
