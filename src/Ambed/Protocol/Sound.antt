-- ===== src/Ambed/Protocol/Sound.antt =====
-- `read_packet` of md380_emu_ambed/src/protocol.rs ends, and returns only well-formed packets.
use wjmmmdvm.Base.{ℕ, ◌+◌, ◌≤◌, ◌<◌, ◌≡◌, ◌≢◌, sym, ◌∙◌, ap, length, All}
use mathlib.Core.Path.{subst}
use wjmmmdvm.Base.Result.{Result, ok, stuck, ok_injective}
use wjmmmdvm.Base.Io.{Wire, Connection}
use wjmmmdvm.Ambed.Protocol.{Packet, ProtocolError, read_packet}
use wjmmmdvm.Ambed.Protocol.Decode.{Parsed, got, bad, short, decode, Agrees, read_packet_refines}
use wjmmmdvm.Ambed.Protocol.RoundTrip.{IsWire}
use wjmmmdvm.Ambed.Protocol.Shape.{IsByte, OnGot, Accepts, decode-Accepts}

module _ (net : Connection) where
  open net use {Conn, view}

  -- What a successful read leaves: the packet fits its fields, four bytes at least are taken, and
  -- nothing is written.
  pub record Took (c : Conn) (p : Packet) (c' : Conn) : Type 0 where
    pub fits : IsWire p
    pub taken : length (view c').pending + 4 ≤ length (view c).pending
    pub bytes : All IsByte (view c').pending
    pub sent : (view c').sent ≡ (view c).sent
    pub ending : (view c').ending ≡ (view c).ending

  Agrees-sound :
      (c : Conn) (q : Parsed) (r : Result ProtocolError (Packet × Conn))
      → Agrees net c q r
      → OnGot (Accepts (length (view c).pending)) q
      → (r ≢ stuck) × ((p : Packet) (c' : Conn) → r ≡ ok (p, c') → Took c p c')
  Agrees-sound c (got p rest) r (d, e, v) (w, b, k) = (
    rw e (λ h. cc),
    λ p' c' h. subst (λ (x : Packet × Conn). Took c x.0 x.1) (ok_injective (sym e ∙ h)) took,
  )
    where
      took : Took c p d
      took = record {
        fits = w;
        taken = rw v k;
        bytes = rw v b;
        sent = ap (λ (x : Wire). x.sent) v;
        ending = ap (λ (x : Wire). x.ending) v;
      }
  Agrees-sound c (bad x) r e a = (rw e (λ h. cc), λ p' c' h. cc)
  Agrees-sound c short r e a = (rw e (λ h. cc), λ p' c' h. cc)

  -- On any connection whose bytes to come are below 256, `read_packet` with fuel above their
  -- number does not run out of fuel, and each packet that it returns fits its fields, took four
  -- bytes at least, and left the bytes written and the error at the end of the stream as they
  -- were.
  pub read_packet_sound :
      (fuel : ℕ) (c : Conn)
      → All IsByte (view c).pending
      → length (view c).pending < fuel
      → (read_packet net fuel c ≢ stuck)
        × ((p : Packet) (c' : Conn) → read_packet net fuel c ≡ ok (p, c') → Took c p c')
  read_packet_sound fuel c b h =
      Agrees-sound c (decode (view c).pending) _ (read_packet_refines net fuel c h)
        (decode-Accepts _ b)
