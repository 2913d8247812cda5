-- ===== src/Ambed/Server/Session/Answers.antt =====
-- `handle_connection` of md380_emu_ambed/src/server.rs with the codec of md380_emu_ambed/src/codec.rs: what
-- a client gets for its packets.
use wjmmmdvm.Base.{
  ℕ, ◌+◌, ◌<◌, ◌≡◌, refl, ap, ◌∙◌, arith, List, [], ◌∷◌, ◌++◌, length, length-append, All,
  if◌then◌else◌, ◌==◌, Bool-cases, inl, inr,
}
use mathlib.Core.Path.{subst}
use wjmmmdvm.Base.Result.{Result, ok}
use wjmmmdvm.Base.Io.{Connection, IsWritable, unexpected_eof}
use wjmmmdvm.Ambed.Protocol.{Packet, control, channel, speech, build_channel_from_amb8}
use wjmmmdvm.Ambed.Protocol.RoundTrip.{IsWire}
use wjmmmdvm.Ambed.Protocol.Decode as Decode
use wjmmmdvm.Ambed.Codec.{Memory, Firmware, encode, decode}
use wjmmmdvm.Ambed.Server.{ServerError, running, Worker, handle_connection}
use wjmmmdvm.Ambed.Server.CodecWorker.{md380_codec}
use wjmmmdvm.Ambed.Server.Session.{
  respond, session, session_form, session_after, wire_of, amb8_of, map_ok,
}
use wjmmmdvm.Ambed.Server.Session.Serve.{Served, handle_connection_serves}
use wjmmmdvm.Ambed.Server.Session.Replies.{session-AreReplies}

-- A control packet, 160 samples and 49 bits have an answer each.
abbrev pub expected : Packet → ℕ
expected (control payload) = 1
expected (speech samples) = if length samples == 160 then 1 else 0
expected (channel bit_count bytes) = if bit_count == 49 then 1 else 0

abbrev pub expected_all : List Packet → ℕ
expected_all [] = 0
expected_all (p ∷ ps) = expected p + expected_all ps

module _ (fw : Firmware) where
  -- The codec goes on, with so many replies.
  abbrev GoesOn : ℕ → Result ServerError (List Packet) × Worker Memory → Type 0
  GoesOn n r =
      (replies : List Packet) × (ram : Memory) × (r ≡ (ok replies, running ram))
      × (length replies ≡ n)

  respond-GoesOn :
      (p : Packet) (ram : Memory) → GoesOn (expected p) (respond (md380_codec fw) p (running ram))
  unfolding respond
  respond-GoesOn (control payload) ram = (_, ram, refl, refl)
  respond-GoesOn (speech samples) ram = elim (Bool-cases (length samples == 160)) [
    | inl full ↦
        let r = encode fw samples ram in rw full (build_channel_from_amb8 r.0 ∷ [], r.1, refl, refl)
    | inr other ↦ rw other ([], ram, refl, refl)
  ]
  respond-GoesOn (channel bit_count bytes) ram = elim (Bool-cases (bit_count == 49)) [
    | inl voice ↦
        let r = decode fw (amb8_of bytes) ram in rw voice (speech r.0 ∷ [], r.1, refl, refl)
    | inr other ↦ rw other ([], ram, refl, refl)
  ]

  session-GoesOn :
      (ps : List Packet) (ram : Memory)
      → GoesOn (expected_all ps) (session (md380_codec fw) ps (running ram))
  unfolding session_after
  session-GoesOn [] ram = unfold session in ([], ram, refl, refl)
  session-GoesOn (p ∷ ps) ram =
      let (replies, ram', e, n) = respond-GoesOn p ram in
      let (more, ram'', e', n') = session-GoesOn ps ram' in
      (
        replies ++ more,
        ram'',
        session_form (md380_codec fw) p ps (running ram)
            ∙ ap (session_after (md380_codec fw) ps) e
            ∙ ap
                (λ (a : Result ServerError (List Packet) × Worker Memory).
                  (map_ok (λ rest. replies ++ rest) a.0, a.1))
                e',
        omega (arith, length-append replies more, n, n'),
      )

  -- For a connection that takes every byte written and whose bytes to come are those of well-
  -- formed packets, then bytes with no whole frame, then end of file, and fuel above the number
  -- of bytes: `handle_connection` with the firmware's codec ends without error, and the codec
  -- still runs; behind what was sent before it has sent packets that each fit their count and
  -- length fields and the reader's limit: one for each control packet, for each packet of 160
  -- samples and for each of 49 bits, and none for the others.
  pub handle_connection_answers :
      (net : Connection) (writable : IsWritable net) (ps : List Packet) (tail : List ℕ) (fuel : ℕ)
      (c : net.Conn) (ram : Memory)
      → All IsWire ps
      → Decode.decode tail ≡ Decode.short
      → (net.view c).pending ≡ wire_of ps ++ tail
      → (net.view c).ending ≡ unexpected_eof
      → length (net.view c).pending < fuel
      → (replies : List Packet) × (c' : net.Conn) × (ram' : Memory) × (handle_connection net
            (md380_codec fw)
            fuel
            c
            (running ram)
          ≡ (ok c', running ram'))
        × ((net.view c').sent ≡ (net.view c).sent ++ wire_of replies)
        × All IsWire replies
        × (length replies ≡ expected_all ps)
  handle_connection_answers net writable ps tail fuel c ram fits t e d k =
      let (replies, ram', s, n) = session-GoesOn ps ram in
      let (c', h, v) =
        subst
          (λ a.
            Served net writable (md380_codec fw) c a
              (handle_connection net (md380_codec fw) fuel c (running ram)))
          s
          (handle_connection_serves net writable (md380_codec fw) ps tail fuel c (running ram) fits
            t e d k) in
      let (wire, few) = rw s at (session-AreReplies (md380_codec fw) ps (running ram)) in
      (replies, c', ram', h, v, wire, n)
