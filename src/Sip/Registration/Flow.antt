-- ===== src/Sip/Registration/Flow.antt =====
-- `perform` of mmdvm_sip/src/registration.rs against a server that challenges it and then answers.
use wjmmmdvm.Base.{ℕ, ◌≡◌, refl, ap, ◌∙◌, arith, ◌⊎◌, List, [], ◌∷◌, ◌++◌, none, some, All}
use wjmmmdvm.Base.Result.{Result, ok}
use wjmmmdvm.Base.Text.{Text, as_bytes}
use wjmmmdvm.Sip.Error.{SipError}
use wjmmmdvm.Sip.Digest.{Hashing, DigestAuth, compute, to_header_value}
use wjmmmdvm.Sip.Transport.{
  successful, request_failure, SipMessage, response, Rsip, Arrival, UdpTransport, recv, send,
  send_to,
}
use wjmmmdvm.Sip.Registration.{
  Registration, Random, next_cseq, register_text, final_response, recv_response, receive,
  registered, exchange, Continue, take_reply, await_reply, answer_challenge, challenge_auth,
  handle_challenge, first_reply, last_reply, perform,
}

module _ (rsip : Rsip) (hashing : Hashing) where
  open rsip use {Response, status_code, kind}

  -- A request or a provisional response.
  abbrev pub IsDropped : Arrival → Type 0
  IsDropped a =
      (m : SipMessage Response) × (recv rsip a ≡ ok m) × (final_response rsip hashing m ≡ none)

  abbrev pub Brings : Arrival → Response → Type 0
  Brings a r = (recv rsip a ≡ ok (response r)) × (final_response rsip hashing (response r) ≡ some r)

  recv-IsDropped :
      (a : Arrival) (rest : List Arrival)
      → IsDropped a
      → recv_response rsip hashing (a ∷ rest) ≡ recv_response rsip hashing rest
  unfolding recv_response
  recv-IsDropped a rest (m, e, d) = rw (recv_response, e) (rw d refl)

  recv-Brings :
      (a : Arrival) (rest : List Arrival) (r : Response)
      → Brings a r
      → recv_response rsip hashing (a ∷ rest) ≡ (ok r, rest)
  unfolding recv_response
  recv-Brings a rest r (e, d) = rw (recv_response, e) (rw d refl)

  pub recv_response_lem :
      (dropped : List Arrival) (a : Arrival) (r : Response) (rest : List Arrival)
      → All IsDropped dropped
      → Brings a r
      → recv_response rsip hashing (dropped ++ a ∷ rest) ≡ (ok r, rest)
  recv_response_lem [] a r rest h b = recv-Brings a rest r b
  recv_response_lem (d ∷ ds) a r rest h b =
      recv-IsDropped d (ds ++ a ∷ rest) h.0 ∙ recv_response_lem ds a r rest h.1 b

  -- The transport once a request is sent and its reply taken.
  abbrev pub exchanged : Text → List Arrival → UdpTransport → UdpTransport
  exchanged text rest t = record t { arrivals = rest; sent = t.sent ++ (as_bytes text ∷ []) }

  send_lem :
      (bytes : List ℕ) (t : UdpTransport)
      → t.refusals ≡ []
      → send bytes t ≡ (ok tt, record t { sent = t.sent ++ (bytes ∷ []) })
  send_lem bytes t e = ap (λ q. send_to bytes q t) e

  receive_lem :
      (t : UdpTransport) {reply : Result SipError Response} {rest : List Arrival}
      → recv_response rsip hashing t.arrivals ≡ (reply, rest)
      → receive rsip hashing t ≡ (reply, record t { arrivals = rest })
  receive_lem t h = ap (λ p. (p.0, record t { arrivals = p.1 })) h

  pub exchange_lem :
      (text : Text) (k : Continue rsip hashing) (reg : Registration) (t : UdpTransport)
      (r : Response) (rest : List Arrival)
      → t.refusals ≡ []
      → recv_response rsip hashing t.arrivals ≡ (ok r, rest)
      → exchange rsip hashing text k reg t ≡ k r reg (exchanged text rest t)
  exchange_lem text k reg t r rest e h =
      ap (await_reply rsip hashing k reg) (send_lem (as_bytes text) t e)
      ∙ ap (take_reply rsip hashing k reg)
          (receive_lem (record t { sent = t.sent ++ (as_bytes text ∷ []) }) h)

  -- The two requests of a registration that is challenged.
  abbrev pub first_text : Random → Registration → Text
  first_text random reg =
      register_text (next_cseq reg) (hashing.hex_encode random.first_branch) none

  abbrev pub second_text : Random → Registration → DigestAuth → Text
  second_text random reg a =
      register_text (next_cseq (next_cseq reg)) (hashing.hex_encode random.second_branch)
        (some (to_header_value (compute hashing a random.cnonce)))

  first_reply_challenge :
      (random : Random) (r : Response) (reg : Registration) (t : UdpTransport)
      → kind r ≡ request_failure
      → (status_code r ≡ 401) ⊎ (status_code r ≡ 407)
      → first_reply rsip hashing random r reg t ≡ handle_challenge rsip hashing random r reg t
  unfolding first_reply
  first_reply_challenge random r reg t k s = rw (first_reply, k) (ground arith)

  last_reply_ok :
      (r : Response) (reg : Registration) (t : UdpTransport)
      → kind r ≡ successful
      → last_reply rsip hashing r reg t ≡ (ok (registered rsip hashing reg r), reg, t)
  unfolding last_reply
  last_reply_ok r reg t k = rw (last_reply, k) refl

  module _ (random : Random) (reg : Registration) (t : UdpTransport) (a : DigestAuth)
      (r₁ r₂ : Response) (arrivals rest : List Arrival) where
    pub perform_challenged :
        t.refusals ≡ []
        → recv_response rsip hashing t.arrivals ≡ (ok r₁, arrivals)
        → kind r₁ ≡ request_failure
        → (status_code r₁ ≡ 401) ⊎ (status_code r₁ ≡ 407)
        → challenge_auth rsip hashing r₁ (next_cseq reg) ≡ ok a
        → recv_response rsip hashing arrivals ≡ (ok r₂, rest)
        → perform rsip hashing random reg t
          ≡ last_reply rsip hashing r₂ (next_cseq (next_cseq reg)) (record t {
            arrivals = rest;
            sent =
                (t.sent ++ (as_bytes (first_text random reg) ∷ []))
                ++ (as_bytes (second_text random reg a) ∷ []);
          })
    unfolding perform handle_challenge
    perform_challenged e h₁ k s c h₂ =
        exchange_lem (first_text random reg) (first_reply rsip hashing random) (next_cseq reg) t r₁
          arrivals e h₁
        ∙ first_reply_challenge random r₁ (next_cseq reg) _ k s
        ∙ ap
            (λ x.
              answer_challenge rsip hashing random x (next_cseq reg)
                (exchanged (first_text random reg) arrivals t))
            c
        ∙ exchange_lem (second_text random reg a) (last_reply rsip hashing)
            (next_cseq (next_cseq reg)) (exchanged (first_text random reg) arrivals t) r₂ rest e h₂
