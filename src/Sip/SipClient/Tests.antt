-- ===== src/Sip/SipClient/Tests.antt =====
-- The loop's theorems at a client whose server never answers the first attempt.
use wjmmmdvm.Base.{◌+◌, ◌≤◌, ◌<◌, ◌≡◌, refl, arith, [], ◌∷◌}
use wjmmmdvm.Sip.Digest.Lengths.{hashing}
use wjmmmdvm.Sip.Transport.{silence}
use wjmmmdvm.Sip.Registration.Sample.{rsip, account, random, transport}
use wjmmmdvm.Sip.SipClient.{SipClient, refresh_in, run_register_loop}
use wjmmmdvm.Sip.SipClient.Rounds.{
  refresh_bounds, pauses, results, run_register_loop-pauses, Counted, run_register_loop-Counted,
}

abbrev client : SipClient
client = record {
  transport = record transport { arrivals = silence ∷ transport.arrivals };
  registration = account;
  backoff = 20;
}

-- A registration for 120 seconds is refreshed after a minute.
refresh_bounds_example :
    (30 ≤ refresh_in (record { expires = 120 }))
    × (35 ≤ 120 → refresh_in (record { expires = 120 }) + 5 ≤ 120)
    × (30 < 120 → refresh_in (record { expires = 120 }) < 120)
    × (60 ≤ 120 → refresh_in (record { expires = 120 }) ≡ 60)
    × (120 < 30 → 120 < refresh_in (record { expires = 120 }))
refresh_bounds_example = refresh_bounds (record { expires = 120 })

run_register_loop-pauses_example :
    (run_register_loop rsip hashing (random ∷ random ∷ []) client).0
    ≡ pauses (results rsip hashing (random ∷ random ∷ []) client) 2
run_register_loop-pauses_example =
    run_register_loop-pauses rsip hashing (random ∷ random ∷ []) client 2 refl

run_register_loop-Counted_example :
    Counted rsip hashing 2 client (run_register_loop rsip hashing (random ∷ random ∷ []) client).1
run_register_loop-Counted_example =
    run_register_loop-Counted rsip hashing (random ∷ random ∷ []) client (omega arith)
