-- ===== src/Sip/Echo.antt =====
-- mmdvm_sip/src/command/echo_dmr.rs: a call is recorded, and sent back once it has ended. The clock,
-- the random number and the socket are not part of the repository: the times and the number come
-- with each event, and the socket tells for each datagram whether it takes it.
pub mod Coherent
pub mod Call
mod Tests
use wjmmmdvm.Base.{
  ℕ, zero, suc, ◌+◌, ◌-◌, ◌%◌, ◌^◌, Bool, true, false, not, ◌&&◌, if◌then◌else◌, ltb, ◌==◌,
}
use wjmmmdvm.Base.{List, [], ◌∷◌, ◌++◌, Option, none, some, ◌≡◌, ◌≤◌}
use wjmmmdvm.Sip.Dmr.Packet.{
  Packet, DmrData, data_packet, config_packet, gps_packet, alias_packet, unknown, parse,
  data_as_bytes,
}

-- The variables of the loop: `record`, `current_stream` and `last_burst`.
pub record EchoState : Type 0 where
  pub recorded : List DmrData
  pub current_stream : Option ℕ
  pub last_burst : ℕ

abbrev pub start_state : ℕ → EchoState
start_state now = record { recorded = []; current_stream = none; last_burst = now }

-- What the loop waits for: a tick, or a datagram.
pub data Event : Type 0 where
  tick : ℕ → ℕ → Event
  datagram : ℕ → List ℕ → Event

-- One burst of the replay.
abbrev pub replayed : ℕ → ℕ → DmrData → DmrData
replayed new_stream_id i src = record src {
  stream_id = new_stream_id;
  seq = i % 2 ^ 8;
  ber = 0;
  rssi = 0;
}

-- `echo_call` from burst `i` on: the datagrams sent, up to the first that the socket refuses.
unfoldable pub echo_call : (List ℕ → Bool) → ℕ → ℕ → List DmrData → List (List ℕ)
echo_call takes new_stream_id i [] = []
echo_call takes new_stream_id i (src ∷ bursts) =
    let out = data_as_bytes (replayed new_stream_id i src) in
    let rest = echo_call takes new_stream_id (suc i) bursts in if takes out then out ∷ rest else []

-- The `match current_stream` on the stream of a burst, and the burst recorded.
unfoldable pub record_burst : ℕ → DmrData → EchoState → EchoState
record_burst now p s = elim s.current_stream [
  | none ↦ record {
    recorded = s.recorded ++ p ∷ [];
    current_stream = some p.stream_id;
    last_burst = now;
  }
  | some cur ↦
      if not (cur == p.stream_id)
      then record { recorded = p ∷ []; current_stream = some p.stream_id; last_burst = now }
      else record s { recorded = s.recorded ++ p ∷ []; last_burst = now }
]

-- Packets other than bursts are passed over.
unfoldable pub on_packet : ℕ → Packet → EchoState → EchoState
on_packet now (data_packet p) s = record_burst now p s
on_packet now (config_packet o) s = s
on_packet now (gps_packet o) s = s
on_packet now (alias_packet o) s = s
on_packet now (unknown magic len) s = s

abbrev pub is_empty : List DmrData → Bool
is_empty [] = true
is_empty (p ∷ ps) = false

module _ (takes : List ℕ → Bool) (idle : ℕ) where
  -- One turn of the loop, with the datagrams that it sends.
  unfoldable pub turn : Event → EchoState → EchoState × List (List ℕ)
  unfolding echo_call
  turn (tick now random) s =
      if not (is_empty s.recorded) && ltb idle (now - s.last_burst)
      then (record s { recorded = []; current_stream = none }, echo_call takes random 0 s.recorded)
      else (s, [])
  turn (datagram now bytes) s = (on_packet now (parse bytes) s, [])
