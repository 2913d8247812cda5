-- ===== src/Sip/SipClient/Rounds.antt =====
-- The pauses of the loop in mmdvm_sip/src/sip_client.rs.
use wjmmmdvm.Base.{
  ℕ, suc, ◌+◌, ◌*◌, ◌/◌, ◌^◌, ◌≤◌, ◌<◌, min, ◌≡◌, refl, sym, ap, ap₂, ◌∙◌, ◌++◌, append-nil,
  append_assoc, length-append, arith, List, [], ◌∷◌, length,
}
use wjmmmdvm.Base.Result.{Result, ok, err, stuck, Returns}
use wjmmmdvm.Sip.Error.{SipError}
use wjmmmdvm.Sip.Digest.{Hashing}
use wjmmmdvm.Sip.Transport.{Rsip}
use wjmmmdvm.Sip.Registration.{Registration, Registered, Random, perform}
use wjmmmdvm.Sip.Registration.Requests.{advance, advance_zero, advance_add, perform-Within}
use wjmmmdvm.Sip.SipClient.{
  SipClient, refresh_in, after_result, round, run_register_loop, max_backoff,
}

-- For every expiry, `refresh_in` is at least 30 seconds; it is five seconds before the expiry at
-- the latest where that is 35 at least, before the expiry where that is above 30, half of it
-- where that is 60 at least, and behind the expiry where that is below 30.
pub refresh_bounds :
    (r : Registered)
    → (30 ≤ refresh_in r)
      × (35 ≤ r.expires → refresh_in r + 5 ≤ r.expires)
      × (30 < r.expires → refresh_in r < r.expires)
      × (60 ≤ r.expires → refresh_in r ≡ r.expires / 2)
      × (r.expires < 30 → r.expires < refresh_in r)
unfolding refresh_in
refresh_bounds r =
    (omega arith, λ h. omega arith, λ h. omega arith, λ h. omega arith, λ h. omega arith)

-- The pause behind so many failures in a row: it doubles up to a minute.
abbrev pub pause_after : ℕ → ℕ
pause_after failures = min (5 * 2 ^ failures) 60

pause_doubles :
    (failures : ℕ) → min (pause_after failures * 2) max_backoff ≡ pause_after (suc failures)
pause_doubles failures = omega arith

-- The pauses of the loop, from the results of the attempts and the failures in a row before them.
abbrev pub pauses : List (Result SipError Registered) → ℕ → List ℕ
pauses [] failures = []
pauses (ok r ∷ rs) failures = refresh_in r ∷ pauses rs 0
pauses (err e ∷ rs) failures = pause_after failures ∷ pauses rs (suc failures)
pauses (stuck ∷ rs) failures = []

module _ (rsip : Rsip) (hashing : Hashing) where
  -- The results of the attempts, one for each round.
  abbrev pub results : List Random → SipClient → List (Result SipError Registered)
  results [] client = []
  results (random ∷ rs) client =
      (perform rsip hashing random client.registration client.transport).0
      ∷ results rs (round rsip hashing random client).1

  sleeps_of : List Random → SipClient → List ℕ
  sleeps_of rs client = (run_register_loop rsip hashing rs client).0

  result_case :
      (result : Result SipError Registered) (random : Random) (rs : List Random)
      (client : SipClient) (failures : ℕ)
      → (perform rsip hashing random client.registration client.transport).0 ≡ result
      → Returns result
      → client.backoff ≡ pause_after failures
      → ((next : SipClient) (later : ℕ)
          → next.backoff ≡ pause_after later
          → (run_register_loop rsip hashing rs next).0 ≡ pauses (results rs next) later)
      → (run_register_loop rsip hashing (random ∷ rs) client).0
        ≡ pauses (results (random ∷ rs) client) failures
  unfolding run_register_loop after_result
  result_case (ok r) random rs client failures e back b ih =
      let next = (round rsip hashing random client).1 in
      let head = ap (λ x. (after_result x client.backoff).0) e in
      let backoff = ap (λ x. (after_result x client.backoff).1) e in
      ap₂ ◌∷◌ head (ih next 0 backoff) ∙ sym (ap (λ x. pauses (x ∷ results rs next) failures) e)
  result_case (err why) random rs client failures e back b ih =
      let next = (round rsip hashing random client).1 in
      let head = ap (λ x. (after_result x client.backoff).0) e in
      let backoff = ap (λ x. (after_result x client.backoff).1) e in
      ap₂ ◌∷◌ (head ∙ b) (
        ih next (suc failures)
          (backoff ∙ ap (λ n. min (n * 2) max_backoff) b ∙ pause_doubles failures))
      ∙ sym (ap (λ x. pauses (x ∷ results rs next) failures) e)
  result_case stuck random rs client failures e back b ih = absurd back

  -- For any number of rounds from a backoff of five seconds doubled for each failure in a row,
  -- and a minute at most, the loop sleeps behind each success as long as `refresh_in` says, and
  -- behind each failure five seconds doubled for each failure in a row before it, and a minute at
  -- most.
  pub run_register_loop-pauses :
      (rs : List Random) (client : SipClient) (failures : ℕ)
      → client.backoff ≡ pause_after failures
      → (run_register_loop rsip hashing rs client).0 ≡ pauses (results rs client) failures
  unfolding run_register_loop
  run_register_loop-pauses [] client failures b = refl
  run_register_loop-pauses (random ∷ rs) client failures b =
      let w = perform-Within rsip hashing random client.registration client.transport in
      result_case (perform rsip hashing random client.registration client.transport).0 random rs
        client failures refl w.returns b (run_register_loop-pauses rs)

  -- The client after its rounds: how many requests it counted, and the datagrams it sent.
  pub record Counted (rounds : ℕ) (client after : SipClient) : Type 0 where
    pub count : ℕ
    pub extra : List (List ℕ)
    pub low : rounds ≤ count
    pub high : count ≤ 2 * rounds
    pub counted : after.registration ≡ advance count client.registration
    pub sent_on : after.transport.sent ≡ client.transport.sent ++ extra
    pub few : length extra ≤ count

  -- From a CSeq of 32 bits, any number of rounds count between one and two requests a round onto
  -- the CSeq, change nothing else of the registration, and add at most as many datagrams to those
  -- sent, and remove none.
  pub run_register_loop-Counted :
      (rs : List Random) (client : SipClient)
      → client.registration.cseq < 2 ^ 32
      → Counted (length rs) client (run_register_loop rsip hashing rs client).1
  unfolding run_register_loop round
  run_register_loop-Counted [] client h = record {
    count = 0;
    extra = [];
    low = omega arith;
    high = omega arith;
    counted = advance_zero client.registration h;
    sent_on = sym (append-nil client.transport.sent);
    few = omega arith;
  }
  run_register_loop-Counted (random ∷ rs) client h =
      let w = perform-Within rsip hashing random client.registration client.transport in
      let next = (round rsip hashing random client).1 in
      let small : next.registration.cseq < 2 ^ 32 =
        omega (arith, ap (λ (r : Registration). r.cseq) w.counted) in
      let c = run_register_loop-Counted rs next small in
      record {
        count = w.count + c.count;
        extra = w.extra ++ c.extra;
        low = omega (arith, w.low, c.low);
        high = omega (arith, w.high, c.high);
        counted =
            c.counted
            ∙ ap (advance c.count) w.counted
            ∙ advance_add w.count c.count client.registration;
        sent_on =
            c.sent_on
            ∙ ap (λ s. s ++ c.extra) w.sent_on
            ∙ append_assoc client.transport.sent w.extra c.extra;
        few = omega (arith, w.few, c.few, length-append w.extra c.extra);
      }
