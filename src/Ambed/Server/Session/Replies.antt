-- ===== src/Ambed/Server/Session/Replies.antt =====
-- The replies of md380_emu_ambed/src/server.rs are packets that a client can read.
use wjmmmdvm.Base.{
  ℕ, suc, ◌≤◌, ◌≡◌, arith, List, [], ◌∷◌, ◌++◌, length, length-append, All, All-append,
}
use wjmmmdvm.Base.{◌==◌, ◌||◌, Bool-cases, inl, inr, Option, some, Option-cases}
use wjmmmdvm.Base.Result.{Result, ok, err, stuck, OnOk}
use wjmmmdvm.Ambed.Protocol.{Packet, control, channel, speech, build_channel_from_amb8}
use wjmmmdvm.Ambed.Protocol.RoundTrip.{IsWire}
use wjmmmdvm.Ambed.Protocol.Amb8.{IsAmb8, amb8_from_channel-build}
use wjmmmdvm.Ambed.Codec.Contract.{IsPcm}
use wjmmmdvm.Ambed.Server.{Codec, Worker, running, dead, ServerError, request, control_response}
use wjmmmdvm.Ambed.Server.Session.{respond, session, map_ok, amb8_of, session_after, session_form}

control_response-IsWire : (tag : ℕ) (payload : List ℕ) → IsWire (control_response tag payload)
unfolding control_response
control_response-IsWire tag payload = elim (Bool-cases (tag == 0x30)) [
  | inl a ↦ rw a (omega arith)
  | inr a ↦ elim (Bool-cases (tag == 0x33)) [
    | inl b ↦ rw (a, b) (omega arith)
    | inr b ↦ elim (Bool-cases (tag == 0x09 || tag == 0x0a)) [
      | inl d ↦ rw (a, b, d) (omega arith)
      | inr d ↦ rw (a, b, d) (omega arith)
    ]
  ]
]

build-IsWire : (a : List ℕ) → IsAmb8 a → IsWire (build_channel_from_amb8 a)
build-IsWire a h = let (d, e, w, back) = amb8_from_channel-build a h in rw e w

module _ (codec : Codec) where
  open codec use {State}

  -- A codec's result under a predicate that its laws give.
  request-OnOk :
      (P : List ℕ → Type 0) (op : State → Option (List ℕ × State)) (w : Worker State)
      → ((s s' : State) (r : List ℕ) → op s ≡ some (r, s') → P r)
      → OnOk P (request op w).0
  request-OnOk P op dead h = tt
  request-OnOk P op (running s) h = elim (Option-cases (op s)) [
    | inl e ↦ rw (request, e) tt
    | inr (r, e) ↦ rw (request, e) (h s r.1 r.0 e)
  ]

  -- At most `n` replies, each fit for the wire.
  abbrev pub AreReplies : ℕ → List Packet → Type 0
  AreReplies n replies = All IsWire replies × (length replies ≤ n)

  one_reply :
      (P : List ℕ → Type 0) (f : List ℕ → Packet) (r : Result ServerError (List ℕ))
      → ((a : List ℕ) → P a → IsWire (f a))
      → OnOk P r
      → OnOk (AreReplies 1) (map_ok (λ a. f a ∷ []) r)
  one_reply P f (ok a) h k = ((h a k, tt), omega arith)
  one_reply P f (err e) h k = tt
  one_reply P f stuck h k = tt

  respond-AreReplies : (p : Packet) (w : Worker State) → OnOk (AreReplies 1) (respond codec p w).0
  unfolding respond
  respond-AreReplies (control payload) w = ((control_response-IsWire _ payload, tt), omega arith)
  respond-AreReplies (speech samples) w = elim (Bool-cases (length samples == 160)) [
    | inl full ↦ rw full (
        one_reply IsAmb8 build_channel_from_amb8 _ build-IsWire (
          request-OnOk IsAmb8 (codec.encode samples) w
            (λ s s' a e. codec.encode-IsAmb8 samples s s' a e)))
    | inr other ↦ rw other (tt, omega arith)
  ]
  respond-AreReplies (channel bit_count bytes) w = elim (Bool-cases (bit_count == 49)) [
    | inl voice ↦ rw voice (
        one_reply IsPcm speech _ (λ pcm p. (omega (arith, p.size), p.halves))
          (request-OnOk IsPcm (codec.decode (amb8_of bytes)) w
            (λ s s' a e. codec.decode-IsPcm (amb8_of bytes) s s' a e)))
    | inr other ↦ rw other (tt, omega arith)
  ]

  AreReplies-append :
      (n : ℕ) (replies : List Packet) (rest : Result ServerError (List Packet))
      → AreReplies 1 replies
      → OnOk (AreReplies n) rest
      → OnOk (AreReplies (suc n)) (map_ok (λ more. replies ++ more) rest)
  AreReplies-append n replies (ok more) h k =
      (All-append IsWire replies more h.0 k.0, omega (arith, length-append replies more, h.1, k.1))
  AreReplies-append n replies (err e) h k = tt
  AreReplies-append n replies stuck h k = tt

  session_after-AreReplies :
      (ps : List Packet) (a : Result ServerError (List Packet) × Worker State)
      → OnOk (AreReplies 1) a.0
      → ((w : Worker State) → OnOk (AreReplies (length ps)) (session codec ps w).0)
      → OnOk (AreReplies (suc (length ps))) (session_after codec ps a).0
  unfolding session_after
  session_after-AreReplies ps (ok replies, w) h k = AreReplies-append (length ps) replies _ h (k w)
  session_after-AreReplies ps (err e, w) h k = tt
  session_after-AreReplies ps (stuck, w) h k = tt

  -- For any packets and worker, the replies of a `session` without error are at most as many as
  -- the packets, and each fits its count and length fields and the reader's limit.
  pub session-AreReplies :
      (ps : List Packet) (w : Worker State) → OnOk (AreReplies (length ps)) (session codec ps w).0
  session-AreReplies [] w = unfold session in (tt, omega arith)
  session-AreReplies (p ∷ ps) w = rw (session_form codec p ps w) (
      session_after-AreReplies ps (respond codec p w) (respond-AreReplies p w)
        (session-AreReplies ps))
