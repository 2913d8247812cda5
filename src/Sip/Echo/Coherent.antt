-- ===== src/Sip/Echo/Coherent.antt =====
-- What the loop of mmdvm_sip/src/command/echo_dmr.rs has recorded is always one call.
use wjmmmdvm.Base.{
  ℕ, ◌≡◌, refl, sym, Bool, false, not, ◌&&◌, Bool-cases, inl, inr, ltb, ◌==◌, ==_iff, ◌-◌,
}
use wjmmmdvm.Base.{List, [], ◌∷◌, ◌++◌, All, All-append, Option, none, some}
use wjmmmdvm.Sip.Dmr.Packet.{
  Packet, DmrData, data_packet, config_packet, gps_packet, alias_packet, unknown, parse,
}
use wjmmmdvm.Sip.Echo.{
  EchoState, Event, tick, datagram, record_burst, on_packet, turn, start_state, is_empty,
}

-- Nothing is recorded, or bursts of the current stream are.
abbrev pub Coherent : Option ℕ → List DmrData → Type 0
Coherent none ps = ps ≡ []
Coherent (some sid) ps = (is_empty ps ≡ false) × All (λ p. p.stream_id ≡ sid) ps

-- The states that the loop reaches from its start.
pub data Reachable (takes : List ℕ → Bool) (idle : ℕ) : EchoState → Type 0 where
  started : (now : ℕ) → Reachable takes idle (start_state now)
  turned :
      (s : EchoState) (e : Event)
      → Reachable takes idle s
      → Reachable takes idle (turn takes idle e s).0

not_empty : (ps : List DmrData) (p : DmrData) → is_empty (ps ++ p ∷ []) ≡ false
not_empty [] p = refl
not_empty (q ∷ ps) p = refl

record_burst-Coherent :
    (now : ℕ) (p : DmrData) (cur : Option ℕ) (ps : List DmrData) (last : ℕ)
    → Coherent cur ps
    → let s =
        record_burst now p (record { recorded = ps; current_stream = cur; last_burst = last }) in
      Coherent s.current_stream s.recorded
unfolding record_burst
record_burst-Coherent now p none ps last h = (not_empty ps p, rw h (refl, tt))
record_burst-Coherent now p (some sid) ps last h = elim (Bool-cases (sid == p.stream_id)) [
  | inl same ↦
      let e : sid ≡ p.stream_id = (==_iff _ _).0 same in
      rw same (not_empty ps p, All-append _ ps (p ∷ []) h.1 (sym e, tt))
  | inr new ↦ rw new (refl, (refl, tt))
]

on_packet-Coherent :
    (now : ℕ) (q : Packet) (s : EchoState)
    → Coherent s.current_stream s.recorded
    → Coherent (on_packet now q s).current_stream (on_packet now q s).recorded
unfolding on_packet
on_packet-Coherent now (data_packet p) s h =
    record_burst-Coherent now p s.current_stream s.recorded s.last_burst h
on_packet-Coherent now (config_packet o) s h = h
on_packet-Coherent now (gps_packet o) s h = h
on_packet-Coherent now (alias_packet o) s h = h
on_packet-Coherent now (unknown magic len) s h = h

module _ (takes : List ℕ → Bool) (idle : ℕ) where
  turn-Coherent :
      (e : Event) (s : EchoState)
      → Coherent s.current_stream s.recorded
      → Coherent (turn takes idle e s).0.current_stream (turn takes idle e s).0.recorded
  unfolding turn
  turn-Coherent (tick now random) s h =
      elim (Bool-cases (not (is_empty s.recorded) && ltb idle (now - s.last_burst))) [
        | inl ended ↦ rw ended refl
        | inr going ↦ rw going h
      ]
  turn-Coherent (datagram now bytes) s h = on_packet-Coherent now (parse bytes) s h

  -- In every state that the loop of the echo reaches from its start, there is no current stream
  -- and nothing is recorded, or at least one burst is recorded and all are of the current stream.
  pub Reachable-Coherent :
      (s : EchoState) → Reachable takes idle s → Coherent s.current_stream s.recorded
  Reachable-Coherent s (started now) = refl
  Reachable-Coherent s (turned s' e r) = turn-Coherent e s' (Reachable-Coherent s' r)
