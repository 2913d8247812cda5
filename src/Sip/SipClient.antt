-- ===== src/Sip/SipClient.antt =====
-- mmdvm_sip/src/sip_client.rs: the loop that registers and refreshes. A time is in seconds, and each
-- round says how long the loop sleeps behind it.
pub mod Rounds
mod Tests
use wjmmmdvm.Base.{ℕ, ◌-◌, ◌*◌, ◌/◌, min, max, List, [], ◌∷◌}
use wjmmmdvm.Base.Result.{Result, ok, err, stuck}
use wjmmmdvm.Sip.Error.{SipError}
use wjmmmdvm.Sip.Digest.{Hashing}
use wjmmmdvm.Sip.Transport.{Rsip, UdpTransport}
use wjmmmdvm.Sip.Registration.{Registration, Registered, Random, Outcome, perform}

-- The client and the variable of its loop.
pub record SipClient : Type 0 where
  pub transport : UdpTransport
  pub registration : Registration
  pub backoff : ℕ

abbrev pub first_backoff : ℕ
first_backoff = 5

abbrev pub max_backoff : ℕ
max_backoff = 60

-- `saturating_sub` is the subtraction of ℕ.
unfoldable pub refresh_in : Registered → ℕ
refresh_in r = max (min (r.expires / 2) (r.expires - 5)) 30

-- The arm of the `match` for each result: the sleep, and the backoff for later. Both arms for an
-- error do the same, and `stuck` is no result of `perform`.
unfoldable pub after_result : Result SipError Registered → ℕ → ℕ × ℕ
unfolding refresh_in
after_result (ok r) backoff = (refresh_in r, first_backoff)
after_result (err e) backoff = (backoff, min (backoff * 2) max_backoff)
after_result stuck backoff = (backoff, backoff)

module _ (rsip : Rsip) (hashing : Hashing) where
  unfoldable pub round : Random → SipClient → ℕ × SipClient
  unfolding after_result
  round random client =
      let (result, registration, transport) =
        perform rsip hashing random client.registration client.transport in
      let (sleep, backoff) = after_result result client.backoff in
      (sleep, record { transport = transport; registration = registration; backoff = backoff })

  -- The loop for as many rounds as there are random bytes: the sleeps, and the client at the end.
  unfoldable pub run_register_loop : List Random → SipClient → List ℕ × SipClient
  unfolding round
  run_register_loop [] client = ([], client)
  run_register_loop (random ∷ rs) client =
      let (sleep, client₁) = round random client in
      let (sleeps, client₂) = run_register_loop rs client₁ in (sleep ∷ sleeps, client₂)
