-- ===== src/Sip/Echo/Tests.antt =====
-- The echo's theorems at a concrete call.
use wjmmmdvm.Base.{ℕ, ◌≡◌, refl, arith, Bool, true, List, [], ◌∷◌, ◌++◌, replicate}
use wjmmmdvm.Base.BitList.{same}
use wjmmmdvm.Sip.Dmr.Packet.{DmrData, data_packet, parse, data_of_bytes, u32_be}
use wjmmmdvm.Sip.Echo.{EchoState, tick, datagram, turn, start_state}
use wjmmmdvm.Sip.Echo.Coherent.{Coherent, Reachable, started, turned, Reachable-Coherent}
use wjmmmdvm.Sip.Echo.Call.{Heard, events, replay_of, run_events, run_events-call}

abbrev burst_bytes : List ℕ
burst_bytes =
    0x44
      ∷ 0x4d
      ∷ 0x52
      ∷ 0x44
      ∷ 1
      ∷ 1
      ∷ 2
      ∷ 3
      ∷ 4
      ∷ 5
      ∷ 6
      ∷ 7
      ∷ 8
      ∷ 9
      ∷ 0x10
      ∷ 0x81
      ∷ 0
      ∷ 0
      ∷ 0
      ∷ 7
      ∷ replicate 33 0xab
    ++ 5 ∷ 200 ∷ []

abbrev burst : DmrData
burst = record {
  magic = 0x44 ∷ 0x4d ∷ 0x52 ∷ 0x44 ∷ [];
  seq = 1;
  src_id = 1 ∷ 2 ∷ 3 ∷ [];
  dst_id = 4 ∷ 5 ∷ 6 ∷ [];
  repeater_id = 0x0708_0910;
  flags = 0x81;
  stream_id = 7;
  payload = replicate 33 0xab;
  ber = 5;
  rssi = 200;
}

burst_parsed : parse burst_bytes ≡ data_packet burst
unfolding parse same data_of_bytes u32_be
burst_parsed = refl

abbrev heard : ℕ → Heard 7
heard now = record {
  at = now;
  bytes = burst_bytes;
  burst = burst;
  parsed = burst_parsed;
  stream = refl;
}

abbrev all : List ℕ → Bool
all bytes = true

run_events-call_example :
    run_events all 800 (events (heard 60 ∷ heard 120 ∷ []) ++ tick 1000 99 ∷ []) (start_state 0)
    ≡ (start_state 120, replay_of 99 0 (burst ∷ burst ∷ []))
run_events-call_example =
    run_events-call all 800 7 (heard 60) (heard 120 ∷ []) 0 1000 99 (λ bytes. refl) (omega arith)

recording : EchoState
recording = (turn all 800 (datagram 60 burst_bytes) (start_state 0)).0

recording-Reachable : Reachable all 800 recording
unfolding recording
recording-Reachable = turned (start_state 0) (datagram 60 burst_bytes) (started 0)

Reachable-Coherent_example : Coherent recording.current_stream recording.recorded
Reachable-Coherent_example = Reachable-Coherent all 800 recording recording-Reachable
