-- ===== src/Sip/Echo/Call.antt =====
-- A whole call through the loop of mmdvm_sip/src/command/echo_dmr.rs.
use wjmmmdvm.Base.{ℕ, suc, ◌-◌, ◌%◌, ◌<◌, ◌≡◌, refl, sym, ap, ◌∙◌, arith, Bool, true, ltb, ◌==◌}
use wjmmmdvm.Base.{List, [], ◌∷◌, ◌++◌, some, append_assoc, append-nil, map}
use wjmmmdvm.Sip.Dmr.Packet.{DmrData, data_packet, parse, data_as_bytes}
use wjmmmdvm.Sip.Echo.{
  EchoState, Event, tick, datagram, record_burst, on_packet, turn, start_state, echo_call, replayed,
}

-- The events one after the other, with all that is sent.
unfoldable pub run_events : (List ℕ → Bool) → ℕ → List Event → EchoState → EchoState × List (List ℕ)
unfolding turn
run_events takes idle [] s = (s, [])
run_events takes idle (e ∷ es) s =
    let (s', sent) = turn takes idle e s in
    let (s'', more) = run_events takes idle es s' in (s'', sent ++ more)

-- A datagram that arrives at a time, and the burst in it.
pub record Heard (sid : ℕ) : Type 0 where
  pub at : ℕ
  pub bytes : List ℕ
  pub burst : DmrData
  pub parsed : parse bytes ≡ data_packet burst
  pub stream : burst.stream_id ≡ sid

abbrev pub events : {sid : ℕ} → List (Heard sid) → List Event
events hs = map (λ h. datagram h.at h.bytes) hs

abbrev pub bursts : {sid : ℕ} → List (Heard sid) → List DmrData
bursts hs = map (λ h. h.burst) hs

abbrev pub last_at : {sid : ℕ} → ℕ → List (Heard sid) → ℕ
last_at now [] = now
last_at now (h ∷ hs) = last_at h.at hs

-- The replay that is due for the recorded bursts, from number `i` on.
unfoldable pub replay_of : ℕ → ℕ → List DmrData → List (List ℕ)
replay_of new_stream_id i [] = []
replay_of new_stream_id i (p ∷ ps) =
    data_as_bytes (record {
      magic = p.magic;
      seq = i % 256;
      src_id = p.src_id;
      dst_id = p.dst_id;
      repeater_id = p.repeater_id;
      flags = p.flags;
      stream_id = new_stream_id;
      payload = p.payload;
      ber = 0;
      rssi = 0;
    })
    ∷ replay_of new_stream_id (suc i) ps

echo_call-all :
    (takes : List ℕ → Bool) (random i : ℕ) (ps : List DmrData)
    → ((bytes : List ℕ) → takes bytes ≡ true)
    → echo_call takes random i ps ≡ replay_of random i ps
unfolding echo_call replay_of
echo_call-all takes random i [] h = refl
echo_call-all takes random i (p ∷ ps) h =
    rw (h (data_as_bytes (replayed random i p)))
      (ap (λ t. data_as_bytes (replayed random i p) ∷ t) (echo_call-all takes random (suc i) ps h))

module _ (takes : List ℕ → Bool) (idle sid : ℕ) where
  run_burst :
      (h : Heard sid) (es : List Event) (s : EchoState)
      → run_events takes idle (datagram h.at h.bytes ∷ es) s
        ≡ run_events takes idle es (record_burst h.at h.burst s)
  unfolding run_events on_packet
  run_burst h es s =
      ap (λ q. let (s', more) = run_events takes idle es (on_packet h.at q s) in (s', [] ++ more))
        h.parsed

  goes_on :
      (h : Heard sid) (ps : List DmrData) (now : ℕ)
      → record_burst h.at h.burst
          (record { recorded = ps; current_stream = some sid; last_burst = now })
        ≡ record { recorded = ps ++ h.burst ∷ []; current_stream = some sid; last_burst = h.at }
  unfolding record_burst
  goes_on h ps now =
      let same : (sid == h.burst.stream_id) ≡ true = ground (arith, h.stream) in rw same refl

  begins :
      (h : Heard sid) (now : ℕ)
      → record_burst h.at h.burst (start_state now)
        ≡ record { recorded = h.burst ∷ []; current_stream = some sid; last_burst = h.at }
  unfolding record_burst
  begins h now =
      ap (λ x. record { recorded = h.burst ∷ []; current_stream = some x; last_burst = h.at })
        h.stream

  -- More bursts of the stream that is being recorded.
  hear_more :
      (hs : List (Heard sid)) (ps : List DmrData) (now : ℕ) (es : List Event)
      → run_events takes idle
          (events hs ++ es)
          (record { recorded = ps; current_stream = some sid; last_burst = now })
        ≡ run_events takes idle es (record {
          recorded = ps ++ bursts hs;
          current_stream = some sid;
          last_burst = last_at now hs;
        })
  hear_more [] ps now es =
      ap
        (λ r.
          run_events takes idle es
            (record { recorded = r; current_stream = some sid; last_burst = now }))
        (sym (append-nil ps))
  hear_more (h ∷ hs) ps now es =
      run_burst h (events hs ++ es) _
      ∙ ap (run_events takes idle (events hs ++ es)) (goes_on h ps now)
      ∙ hear_more hs (ps ++ h.burst ∷ []) h.at es
      ∙ ap
          (λ r.
            run_events takes idle es
              (record { recorded = r; current_stream = some sid; last_burst = last_at h.at hs }))
          (append_assoc ps (h.burst ∷ []) (bursts hs))

  ends :
      (p : DmrData) (ps : List DmrData) (last now random : ℕ)
      → ((bytes : List ℕ) → takes bytes ≡ true)
      → idle < now - last
      → run_events takes idle
          (tick now random ∷ [])
          (record { recorded = p ∷ ps; current_stream = some sid; last_burst = last })
        ≡ (start_state last, replay_of random 0 (p ∷ ps))
  unfolding run_events
  ends p ps last now random all late =
      let due : ltb idle (now - last) ≡ true = ground arith in
      rw due (
        ap (λ sent. (start_state last, sent))
          (append-nil (echo_call takes random 0 (p ∷ ps))
            ∙ echo_call-all takes random 0 (p ∷ ps) all))

  -- From a loop that records nothing, on datagrams of one or more bursts of one stream and then a
  -- tick more than the idle time after the last of them, with a socket that takes every datagram,
  -- the loop sends exactly the bursts in order, each with the new stream id, its number modulo
  -- 256 and no BER and RSSI and else unchanged, and it records nothing again.
  pub run_events-call :
      (h : Heard sid) (hs : List (Heard sid)) (start now random : ℕ)
      → ((bytes : List ℕ) → takes bytes ≡ true)
      → idle < now - last_at h.at hs
      → run_events takes idle (events (h ∷ hs) ++ tick now random ∷ []) (start_state start)
        ≡ (start_state (last_at h.at hs), replay_of random 0 (bursts (h ∷ hs)))
  run_events-call h hs start now random all late =
      run_burst h (events hs ++ tick now random ∷ []) (start_state start)
      ∙ ap (run_events takes idle (events hs ++ tick now random ∷ [])) (begins h start)
      ∙ hear_more hs (h.burst ∷ []) h.at (tick now random ∷ [])
      ∙ ends h.burst (bursts hs) (last_at h.at hs) now random all late
