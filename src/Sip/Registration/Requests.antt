-- ===== src/Sip/Registration/Requests.antt =====
-- What one `perform` of mmdvm_sip/src/registration.rs sends, whatever the server does.
use wjmmmdvm.Base.{
  ℕ, ◌+◌, ◌%◌, ◌^◌, ◌≤◌, ◌<◌, ◌||◌, ◌==◌, ◌≡◌, refl, sym, ap, ◌∙◌, arith, List, [], ◌∷◌, ◌++◌,
  append_assoc, append-nil, length, Option, none, some, Bool-cases, inl, inr,
}
use wjmmmdvm.Base.Result.{Result, ok, err, stuck, Returns}
use wjmmmdvm.Base.Io.{IoError}
use wjmmmdvm.Base.Text.{Text, as_bytes}
use wjmmmdvm.Sip.Error.{SipError}
use wjmmmdvm.Sip.Digest.{Hashing, DigestAuth}
use wjmmmdvm.Sip.Transport.{
  StatusCodeKind, successful, request_failure, Rsip, UdpTransport, send_to,
}
use wjmmmdvm.Sip.Registration.Returns.{recv_response-Returns, challenge_auth-Returns}
use wjmmmdvm.Sip.Registration.{
  Registration, Random, next_cseq, receive, Outcome, exchange, Continue, take_reply, await_reply,
  answer_challenge, challenge_auth, handle_challenge, first_reply, last_reply, perform,
}

-- The registration after so many requests.
abbrev pub advance : ℕ → Registration → Registration
advance n reg = record reg { cseq = (reg.cseq + n) % 2 ^ 32 }

pub advance_zero : (reg : Registration) → reg.cseq < 2 ^ 32 → reg ≡ advance 0 reg
advance_zero reg h =
    let same : reg.cseq ≡ (reg.cseq + 0) % 2 ^ 32 = omega arith in
    ap (λ c. record reg { cseq = c }) same

pub advance_add : (m n : ℕ) (reg : Registration) → advance n (advance m reg) ≡ advance (m + n) reg
advance_add m n reg =
    let sum : ((reg.cseq + m) % 2 ^ 32 + n) % 2 ^ 32 ≡ (reg.cseq + (m + n)) % 2 ^ 32 =
      omega arith in
    ap (λ c. record reg { cseq = c }) sum

next_small : (reg : Registration) → (next_cseq reg).cseq < 2 ^ 32
next_small reg = omega arith

module _ (rsip : Rsip) (hashing : Hashing) where
  open rsip use {Response, status_code, kind, www_authenticate}

  -- The outcome has `least` to `most` more requests counted, and at most `ahead` more datagrams sent
  -- than that.
  pub record Within (least most ahead : ℕ) (reg : Registration) (t : UdpTransport)
      (out : Outcome rsip hashing) : Type 0 where
    pub count : ℕ
    pub extra : List (List ℕ)
    pub low : least ≤ count
    pub high : count ≤ most
    pub returns : Returns out.0
    pub counted : out.1 ≡ advance count reg
    pub sent_on : out.2.sent ≡ t.sent ++ extra
    pub few : length extra ≤ count + ahead

  -- Nothing more is sent.
  stop :
      (out : Outcome rsip hashing) {reg : Registration} {t : UdpTransport} (most ahead : ℕ)
      → reg.cseq < 2 ^ 32
      → Returns out.0
      → out.1 ≡ reg
      → out.2.sent ≡ t.sent
      → Within 0 most ahead reg t out
  stop out {reg} {t} most ahead h back r e = record {
    count = 0;
    extra = [];
    low = omega arith;
    high = omega arith;
    returns = back;
    counted = r ∙ advance_zero reg h;
    sent_on = e ∙ sym (append-nil t.sent);
    few = omega arith;
  }

  -- One datagram more was sent before.
  behind :
      (t' : UdpTransport) (bytes : List ℕ) {out : Outcome rsip hashing} {reg : Registration}
      {t : UdpTransport} {most : ℕ}
      → t'.sent ≡ t.sent ++ (bytes ∷ [])
      → Within 0 most 0 reg t' out
      → Within 0 most 1 reg t out
  behind t' bytes {t = t} e w = record {
    count = w.count;
    extra = bytes ∷ w.extra;
    low = w.low;
    high = w.high;
    returns = w.returns;
    counted = w.counted;
    sent_on = w.sent_on ∙ ap (λ s. s ++ w.extra) e ∙ append_assoc t.sent (bytes ∷ []) w.extra;
    few = omega (arith, w.few);
  }

  -- The request is counted.
  counts :
      {out : Outcome rsip hashing} {reg : Registration} {t : UdpTransport} {least most : ℕ}
      → Within least most 1 (next_cseq reg) t out
      → Within (1 + least) (1 + most) 0 reg t out
  counts {reg = reg} w = record {
    count = 1 + w.count;
    extra = w.extra;
    low = omega (arith, w.low);
    high = omega (arith, w.high);
    returns = w.returns;
    counted = w.counted ∙ advance_add 1 w.count reg;
    sent_on = w.sent_on;
    few = omega (arith, w.few);
  }

  at_most :
      {out : Outcome rsip hashing} {reg : Registration} {t : UdpTransport} {least most ahead : ℕ}
      → Within least most ahead reg t out
      → Within 0 most ahead reg t out
  at_most w = record {
    count = w.count;
    extra = w.extra;
    low = omega arith;
    high = w.high;
    returns = w.returns;
    counted = w.counted;
    sent_on = w.sent_on;
    few = w.few;
  }

  abbrev Keeps : Continue rsip hashing → ℕ → Registration → Type 0
  Keeps k most reg = (r : Response) (t : UdpTransport) → Within 0 most 0 reg t (k r reg t)

  module _ (k : Continue rsip hashing) (most : ℕ) (reg : Registration) (small : reg.cseq < 2 ^ 32)
      (keeps : Keeps k most reg) where
    take_reply-Within :
        (p : Result SipError Response × UdpTransport)
        → Returns p.0
        → Within 0 most 0 reg p.1 (take_reply rsip hashing k reg p)
    take_reply-Within (err e, t) _ = stop _ most 0 small tt refl refl
    take_reply-Within (stuck, t) back = absurd back
    take_reply-Within (ok r, t) _ = keeps r t

    -- Taking a reply leaves what was sent as it is.
    await-Within :
        (t' : UdpTransport) → Within 0 most 0 reg t' (await_reply rsip hashing k reg (ok tt, t'))
    await-Within t' =
        let w =
          take_reply-Within (receive rsip hashing t')
            (recv_response-Returns rsip hashing t'.arrivals) in
        record {
          count = w.count;
          extra = w.extra;
          low = w.low;
          high = w.high;
          returns = w.returns;
          counted = w.counted;
          sent_on = w.sent_on;
          few = w.few;
        }

    send-Within :
        (bytes : List ℕ) (refusals : List (Option IoError)) (t : UdpTransport)
        → Within 0 most 1 reg t (await_reply rsip hashing k reg (send_to bytes refusals t))
    send-Within bytes [] t = behind _ bytes refl (await-Within _)
    send-Within bytes (none ∷ rest) t = behind _ bytes refl (await-Within _)
    send-Within bytes (some e ∷ rest) t = stop _ most 1 small tt refl refl

    exchange-Within :
        (text : Text) (t : UdpTransport)
        → Within 0 most 1 reg t (exchange rsip hashing text k reg t)
    exchange-Within text t = send-Within (as_bytes text) t.refusals t

  last_reply-Within :
      (reg : Registration) → reg.cseq < 2 ^ 32 → Keeps (last_reply rsip hashing) 0 reg
  unfolding last_reply
  last_reply-Within reg h r t = by_kind (kind r) refl
    where
      by_kind :
          (x : StatusCodeKind) → kind r ≡ x → Within 0 0 0 reg t (last_reply rsip hashing r reg t)
      by_kind successful e = rw (last_reply, e) (stop _ 0 0 h tt refl refl)
      by_kind _ e = rw (last_reply, e) (stop _ 0 0 h tt refl refl)

  answer-Within :
      (random : Random) (auth : Result SipError DigestAuth) (reg : Registration) (t : UdpTransport)
      → reg.cseq < 2 ^ 32
      → Returns auth
      → Within 0 1 0 reg t (answer_challenge rsip hashing random auth reg t)
  unfolding answer_challenge
  answer-Within random (err e) reg t h _ = stop _ 1 0 h tt refl refl
  answer-Within random stuck reg t h back = absurd back
  answer-Within random (ok a) reg t h _ = at_most (
      counts (
        exchange-Within (last_reply rsip hashing) 0 (next_cseq reg) (next_small reg)
          (last_reply-Within (next_cseq reg) (next_small reg)) _ t))

  first_reply-Within :
      (random : Random) (reg : Registration)
      → reg.cseq < 2 ^ 32
      → Keeps (first_reply rsip hashing random) 1 reg
  unfolding first_reply handle_challenge
  first_reply-Within random reg h r t = by_kind (kind r) refl
    where
      by_kind :
          (x : StatusCodeKind)
          → kind r ≡ x
          → Within 0 1 0 reg t (first_reply rsip hashing random r reg t)
      by_kind request_failure e = elim (Bool-cases (status_code r == 401 || status_code r == 407)) [
        | inl auth ↦
            rw (first_reply, e)
              (rw auth (
                answer-Within random (challenge_auth rsip hashing r reg) reg t h
                  (challenge_auth-Returns rsip hashing r reg)))
        | inr other ↦ rw (first_reply, e) (rw other (stop _ 1 0 h tt refl refl))
      ]
      by_kind _ e = rw (first_reply, e) (stop _ 1 0 h tt refl refl)

  -- For any random bytes, registration and transport, `perform` comes back with a value or an
  -- error, has counted one or two requests onto the CSeq and changed nothing else of the
  -- registration, has added at most as many datagrams to those sent as it counted requests, and
  -- removed none.
  pub perform-Within :
      (random : Random) (reg : Registration) (t : UdpTransport)
      → Within 1 2 0 reg t (perform rsip hashing random reg t)
  unfolding perform
  perform-Within random reg t = counts (
      exchange-Within (first_reply rsip hashing random) 1 (next_cseq reg) (next_small reg)
        (first_reply-Within random (next_cseq reg) (next_small reg)) _ t)
