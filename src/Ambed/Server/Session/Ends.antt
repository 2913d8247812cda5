-- ===== src/Ambed/Server/Session/Ends.antt =====
-- `handle_connection` of md380_emu_ambed/src/server.rs ends on any bytes.
use wjmmmdvm.Base.{ℕ, zero, suc, ◌<◌, ◌≡◌, ◌≢◌, refl, ap, arith, length, All}
use wjmmmdvm.Base.Result.{Result, ok, err, stuck}
use wjmmmdvm.Base.Io.{Wire, unexpected_eof, other, Connection, IsWritable}
use wjmmmdvm.Ambed.Protocol.{Packet, ProtocolError, io, malformed, too_large, read_packet}
use wjmmmdvm.Ambed.Protocol.Shape.{IsByte}
use wjmmmdvm.Ambed.Protocol.Sound.{read_packet_sound}
use wjmmmdvm.Ambed.Server.{Codec, Worker, ServerError, handle_packet, handle_connection}
use wjmmmdvm.Ambed.Server.Session.{respond}
use wjmmmdvm.Ambed.Server.Session.Handle.{Sent, Answer, handle_packet-Sent}

module _ (net : Connection) (writable : IsWritable net) (codec : Codec) where
  open net use {Conn, view}
  open codec use {State}

  abbrev Outcome : Type 0
  Outcome = Result ServerError Conn × Worker State

  -- The loop goes on where the bytes to come are those that were left, or it ends with an error.
  unfoldable goes_on : ℕ → Outcome → Outcome
  goes_on fuel out = elim out.0 [
    | ok c' ↦ handle_connection net codec fuel c' out.1
    | err e ↦ (err e, out.1)
    | stuck ↦ (stuck, out.1)
  ]

  Sent-ends :
      (fuel : ℕ) (c : Conn) (a : Answer net writable codec) (out : Outcome)
      → ((c' : Conn) (w : Worker State)
          → (view c').pending ≡ (view c).pending
          → (handle_connection net codec fuel c' w).0 ≢ stuck)
      → Sent net writable codec c a out
      → (goes_on fuel out).0 ≢ stuck
  unfolding goes_on
  Sent-ends fuel c (ok replies, w) out next (c', e, v) =
      rw e (next c' w (ap (λ (x : Wire). x.pending) v))
  Sent-ends fuel c (err e, w) out next h = rw h (λ k. cc)
  Sent-ends fuel c (stuck, w) out next h = absurd h

  read_cases :
      (fuel : ℕ) (c : Conn) (w : Worker State) (r : Result ProtocolError (Packet × Conn))
      → read_packet net (suc fuel) c ≡ r
      → r ≢ stuck
      → ((p : Packet) (c' : Conn)
          → r ≡ ok (p, c')
          → (goes_on fuel (handle_packet net codec p c' w)).0 ≢ stuck)
      → (handle_connection net codec (suc fuel) c w).0 ≢ stuck
  unfolding handle_connection goes_on
  read_cases fuel c w stuck e n k = absurd (n refl)
  read_cases fuel c w (err (io unexpected_eof)) e n k = rw (handle_connection, e) (λ h. cc)
  read_cases fuel c w (err (io (other x))) e n k = rw (handle_connection, e) (λ h. cc)
  read_cases fuel c w (err (malformed x)) e n k = rw (handle_connection, e) (λ h. cc)
  read_cases fuel c w (err (too_large x)) e n k = rw (handle_connection, e) (λ h. cc)
  read_cases fuel c w (ok (p, c')) e n k = rw (handle_connection, e) (k p c' refl)

  -- On any bytes to come, over a connection that takes every byte written, `handle_connection`
  -- with fuel above the number of bytes does not run out of fuel.
  pub handle_connection_ends :
      (fuel : ℕ) (c : Conn) (w : Worker State)
      → All IsByte (view c).pending
      → length (view c).pending < fuel
      → (handle_connection net codec fuel c w).0 ≢ stuck
  handle_connection_ends zero c w b h = absurd (omega arith)
  handle_connection_ends (suc fuel) c w b h =
      let (n, took) = read_packet_sound net (suc fuel) c b h in
      read_cases fuel c w (read_packet net (suc fuel) c) refl n λ p c' e.
        let t = took p c' e in
        Sent-ends fuel c' (respond codec p w) (handle_packet net codec p c' w)
          (λ c₂ w₂ same.
            handle_connection_ends fuel c₂ w₂ (rw same t.bytes)
              (omega (arith, t.taken, ap length same)))
          (handle_packet-Sent net writable codec p c' w t.fits)
