-- ===== src/Ambed/Server/Session/Serve.antt =====
-- `handle_connection` of md380_emu_ambed/src/server.rs: it ends on every connection, and it answers
-- a stream of packets with the session's replies.
use wjmmmdvm.Base.{
  ℕ, zero, suc, ◌≤◌, ◌<◌, ◌≡◌, refl, sym, ap, ◌∙◌, arith, List, [], ◌∷◌, ◌++◌, append-nil,
  append_assoc, length, length-append, All,
}
use wjmmmdvm.Base.Result.{Result, ok, err, stuck}
use wjmmmdvm.Base.Io.{Wire, unexpected_eof, Connection, IsWritable}
use wjmmmdvm.Ambed.Protocol.{
  Packet, control, channel, speech, io, to_bytes, samples_be, read_packet,
}
use wjmmmdvm.Ambed.Protocol.RoundTrip.{IsWire, decode-to_bytes}
use wjmmmdvm.Ambed.Protocol.Decode.{decode, short, read_packet_refines}
use wjmmmdvm.Ambed.Server.{Codec, Worker, ServerError, handle_packet, handle_connection}
use wjmmmdvm.Ambed.Server.Session.{respond, session, wire_of, map_ok, session_after, session_form}
use wjmmmdvm.Ambed.Server.Session.Handle.{Sent, Answer, handle_packet-Sent}

wire_of-append : (ps qs : List Packet) → wire_of (ps ++ qs) ≡ wire_of ps ++ wire_of qs
unfolding wire_of
wire_of-append [] qs = refl
wire_of-append (p ∷ ps) qs =
    ap (λ t. to_bytes p ++ t) (wire_of-append ps qs)
    ∙ sym (append_assoc (to_bytes p) (wire_of ps) (wire_of qs))

length-wire_of :
    (p : Packet) (ps : List Packet) → suc (length (wire_of ps)) ≤ length (wire_of (p ∷ ps))
unfolding wire_of to_bytes
length-wire_of (control payload) ps = omega (arith, length-append payload (wire_of ps))
length-wire_of (channel n bytes) ps = omega (arith, length-append bytes (wire_of ps))
length-wire_of (speech samples) ps = omega (arith, length-append (samples_be samples) (wire_of ps))

module _ (net : Connection) (writable : IsWritable net) (codec : Codec) where
  open net use {Conn, view}
  open codec use {State}

  -- The connection ends in order with the replies sent and nothing to come, or with the error.
  abbrev pub Served :
      Conn → Answer net writable codec → Result ServerError Conn × Worker State → Type 0
  Served c (ok replies, w) out =
      (c' : Conn) × (out ≡ (ok c', w)) × ((view c').sent ≡ (view c).sent ++ wire_of replies)
  Served c (err e, w) out = out ≡ (err e, w)
  Served c (stuck, w) out = ⊥

  Served-after :
      (c c₂ : Conn) (replies : List Packet) (rest : Answer net writable codec)
      (out : Result ServerError Conn × Worker State)
      → (view c₂).sent ≡ (view c).sent ++ wire_of replies
      → Served c₂ rest out
      → Served c (map_ok (λ more. replies ++ more) rest.0, rest.1) out
  Served-after c c₂ replies (ok more, w) out e (c', h, v) = (
    c',
    h,
    v
        ∙ ap (λ (s : List ℕ). s ++ wire_of more) e
        ∙ append_assoc (view c).sent (wire_of replies) (wire_of more)
        ∙ ap (λ (s : List ℕ). (view c).sent ++ s) (sym (wire_of-append replies more)),
  )
  Served-after c c₂ replies (err e, w) out h k = k
  Served-after c c₂ replies (stuck, w) out h k = k

  -- The loop after the answer to a packet.
  loop_after : ℕ → Result ServerError Conn × Worker State → Result ServerError Conn × Worker State
  loop_after fuel out = elim out.0 [
    | ok c' ↦ handle_connection net codec fuel c' out.1
    | err e ↦ (err e, out.1)
    | stuck ↦ (stuck, out.1)
  ]

  Sent-Served :
      (fuel : ℕ) (c c₁ : Conn) (ps : List Packet) (a : Answer net writable codec)
      (out : Result ServerError Conn × Worker State)
      → (view c₁).sent ≡ (view c).sent
      → ((c₂ : Conn) (w' : Worker State)
          → (view c₂).pending ≡ (view c₁).pending
          → (view c₂).ending ≡ (view c₁).ending
          → Served c₂ (session codec ps w') (handle_connection net codec fuel c₂ w'))
      → Sent net writable codec c₁ a out
      → Served c (session_after codec ps a) (loop_after fuel out)
  unfolding loop_after session_after
  Sent-Served fuel c c₁ ps (ok replies, w) out s next (c₂, e, v) = rw e (
      Served-after c c₂ replies (session codec ps w) _
        (ap (λ (x : Wire). x.sent) v ∙ ap (λ (b : List ℕ). b ++ wire_of replies) s)
        (next c₂ w (ap (λ (x : Wire). x.pending) v) (ap (λ (x : Wire). x.ending) v)))
  Sent-Served fuel c c₁ ps (err e, w) out s next h = rw h refl
  Sent-Served fuel c c₁ ps (stuck, w) out s next h = absurd h

  loop_form :
      (fuel : ℕ) (c c₁ : Conn) (p : Packet) (w : Worker State)
      → read_packet net (suc fuel) c ≡ ok (p, c₁)
      → handle_connection net codec (suc fuel) c w
        ≡ loop_after fuel (handle_packet net codec p c₁ w)
  unfolding handle_connection loop_after
  loop_form fuel c c₁ p w r = rw (handle_connection, r) refl

  -- One round of the loop, on a packet that was read.
  round_lem :
      (fuel : ℕ) (c c₁ : Conn) (p : Packet) (ps : List Packet) (w : Worker State)
      → read_packet net (suc fuel) c ≡ ok (p, c₁)
      → (view c₁).sent ≡ (view c).sent
      → IsWire p
      → ((c₂ : Conn) (w' : Worker State)
          → (view c₂).pending ≡ (view c₁).pending
          → (view c₂).ending ≡ (view c₁).ending
          → Served c₂ (session codec ps w') (handle_connection net codec fuel c₂ w'))
      → Served c (session codec (p ∷ ps) w) (handle_connection net codec (suc fuel) c w)
  round_lem fuel c c₁ p ps w r s fits next =
      rw (session_form codec p ps w, loop_form fuel c c₁ p w r)
        (Sent-Served fuel c c₁ ps (respond codec p w) (handle_packet net codec p c₁ w) s next
          (handle_packet-Sent net writable codec p c₁ w fits))

  first_packet :
      (p : Packet) (ps : List Packet) (tail : List ℕ) (fuel : ℕ) (c : Conn)
      → IsWire p
      → (view c).pending ≡ wire_of (p ∷ ps) ++ tail
      → length (view c).pending < fuel
      → (c₁ : Conn) × (read_packet net fuel c ≡ ok (p, c₁))
        × (view c₁ ≡ record (view c) { pending = wire_of ps ++ tail })
  unfolding wire_of
  first_packet p ps tail fuel c fits e k =
      rw
        (
          e,
          append_assoc (to_bytes p) (wire_of ps) tail,
          decode-to_bytes p (wire_of ps ++ tail) fits,
        )
        at (read_packet_refines net fuel c k)

  ended :
      (tail : List ℕ) (fuel : ℕ) (c : Conn)
      → decode tail ≡ short
      → (view c).pending ≡ tail
      → (view c).ending ≡ unexpected_eof
      → length (view c).pending < fuel
      → read_packet net fuel c ≡ err (io unexpected_eof)
  ended tail fuel c t e d k =
      (rw (e, t) at (read_packet_refines net fuel c k)) ∙ ap (λ x. err (io x)) d

  serves_none :
      (tail : List ℕ) (fuel : ℕ) (c : Conn) (w : Worker State)
      → decode tail ≡ short
      → (view c).pending ≡ wire_of [] ++ tail
      → (view c).ending ≡ unexpected_eof
      → length (view c).pending < suc fuel
      → Served c (session codec [] w) (handle_connection net codec (suc fuel) c w)
  unfolding session wire_of handle_connection
  serves_none tail fuel c w t e d k =
      rw (handle_connection, ended tail (suc fuel) c t e d k)
        (c, refl, sym (append-nil (view c).sent))

  -- For a connection that takes every byte written and whose bytes to come are those of well-
  -- formed packets, then bytes with no whole frame, then end of file, `handle_connection` with
  -- fuel above the number of bytes ends: without error, with the bytes of the replies of
  -- `session` sent in their order, or with the error of `session`, and with the worker as
  -- `session` leaves it.
  pub handle_connection_serves :
      (ps : List Packet) (tail : List ℕ) (fuel : ℕ) (c : Conn) (w : Worker State)
      → All IsWire ps
      → decode tail ≡ short
      → (view c).pending ≡ wire_of ps ++ tail
      → (view c).ending ≡ unexpected_eof
      → length (view c).pending < fuel
      → Served c (session codec ps w) (handle_connection net codec fuel c w)
  handle_connection_serves [] tail zero c w h t e d k = absurd (omega arith)
  handle_connection_serves [] tail (suc fuel) c w h t e d k = serves_none tail fuel c w t e d k
  handle_connection_serves (p ∷ ps) tail zero c w h t e d k = absurd (omega arith)
  handle_connection_serves (p ∷ ps) tail (suc fuel) c w h t e d k =
      let (c₁, r, v) = first_packet p ps tail (suc fuel) c h.0 e k in
      round_lem fuel c c₁ p ps w r (ap (λ (x : Wire). x.sent) v) h.0 λ c₂ w' a b.
        let pending₂ = a ∙ ap (λ (x : Wire). x.pending) v in
        handle_connection_serves ps tail fuel c₂ w' h.1 t pending₂
          (b ∙ ap (λ (x : Wire). x.ending) v ∙ d)
          (omega (
            arith,
            ap length pending₂,
            ap length e,
            length-append (wire_of (p ∷ ps)) tail,
            length-wire_of p ps,
            length-append (wire_of ps) tail,
          ))
