-- ===== src/Sip/Registration/Returns.antt =====
-- Waiting for a reply, and reading a challenge, in mmdvm_sip/src/registration.rs: both come back.
use wjmmmdvm.Base.{
  ◌≡◌, refl, arith, ◌⊎◌, inl, inr, List, [], ◌∷◌, take, Option, none, some, Option-cases,
}
use wjmmmdvm.Base.Result.{Result, ok, err, stuck, ok_or, Returns, >>=-Returns, ok_or-Returns}
use wjmmmdvm.Base.Text.{Text, codes, strip_prefix, trim_start}
use wjmmmdvm.Sip.Error.{SipError}
use wjmmmdvm.Sip.Digest.{Hashing, parse_algorithm}
use wjmmmdvm.Sip.Transport.{
  SipMessage, Rsip, Arrival, datagram, receive_error, silence, parsed, recv,
}
use wjmmmdvm.Sip.Registration.{
  Fields, challenge_of, parse_header, set_fields, params_of, no_fields, parse_challenge,
  final_response, Registration, recv_response, challenge_auth,
}

parsed-Returns : {A : Type 0} (p : Text ⊎ A) → Returns (parsed p)
parsed-Returns (inl why) = tt
parsed-Returns (inr a) = tt

challenge_of-Returns : (f : Fields) → Returns (challenge_of f)
unfolding challenge_of
challenge_of-Returns f =
    >>=-Returns (ok_or f.realm _) _ (ok_or-Returns f.realm _)
      λ realm. >>=-Returns (ok_or f.nonce _) _ (ok_or-Returns f.nonce _) λ nonce. tt

parse_header-Returns : (raw : Text) → Returns (parse_header raw)
unfolding parse_header
parse_header-Returns raw =
    >>=-Returns (ok_or (strip_prefix (codes "Digest") (trim_start raw)) _) _
      (ok_or-Returns (strip_prefix (codes "Digest") (trim_start raw)) _)
      λ after. challenge_of-Returns (set_fields (params_of (trim_start after)) no_fields)

parse_algorithm-Returns : (value : Option Text) → Returns (parse_algorithm value)
unfolding parse_algorithm
parse_algorithm-Returns none = tt
parse_algorithm-Returns (some other) = ground arith

module _ (rsip : Rsip) (hashing : Hashing) where
  open rsip use {Response, www_authenticate}

  recv-Returns : (a : Arrival) → Returns (recv rsip a)
  unfolding recv
  recv-Returns silence = tt
  recv-Returns (receive_error e) = tt
  recv-Returns (datagram bytes) = parsed-Returns (rsip.parse_message (take 4096 bytes))

  recv_step :
      (a : Arrival) (arrivals : List Arrival) (m : Result SipError (SipMessage Response))
      → recv rsip a ≡ m
      → Returns m
      → Returns (recv_response rsip hashing arrivals).0
      → Returns (recv_response rsip hashing (a ∷ arrivals)).0
  unfolding recv_response
  recv_step a arrivals (err why) e back later = rw (recv_response, e) tt
  recv_step a arrivals stuck e back later = absurd back
  recv_step a arrivals (ok m) e back later = elim (Option-cases (final_response rsip hashing m)) [
    | inl dropped ↦ rw (recv_response, e) (rw dropped later)
    | inr (r, final) ↦ rw (recv_response, e) (rw final tt)
  ]

  pub recv_response-Returns :
      (arrivals : List Arrival) → Returns (recv_response rsip hashing arrivals).0
  unfolding recv_response
  recv_response-Returns [] = tt
  recv_response-Returns (a ∷ arrivals) =
      recv_step a arrivals (recv rsip a) refl (recv-Returns a) (recv_response-Returns arrivals)

  parse_challenge-Returns : (r : Response) → Returns (parse_challenge rsip hashing r)
  unfolding parse_challenge
  parse_challenge-Returns r = elim (Option-cases (www_authenticate r)) [
    | inl missing ↦ rw (parse_challenge, missing) tt
    | inr (raw, e) ↦ rw (parse_challenge, e) (parse_header-Returns raw)
  ]

  pub challenge_auth-Returns :
      (r : Response) (reg : Registration) → Returns (challenge_auth rsip hashing r reg)
  unfolding challenge_auth
  challenge_auth-Returns r reg =
      >>=-Returns (parse_challenge rsip hashing r) _ (parse_challenge-Returns r) λ c.
        >>=-Returns (parse_algorithm c.algorithm) _ (parse_algorithm-Returns c.algorithm) λ a. tt
