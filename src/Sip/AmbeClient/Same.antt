-- ===== src/Sip/AmbeClient/Same.antt =====
-- The packet reader of mmdvm_sip/src/ambe_codec_client.rs against that of the daemon,
-- md380_emu_ambed/src/protocol.rs.
use wjmmmdvm.Base.{ℕ, zero, suc, ◌+◌, ◌-◌, ◌*◌, ◌/◌, ◌≡◌, refl, ap, arith, List, [], ◌∷◌}
use wjmmmdvm.Base.{length, take, get_or, Bool-cases, inl, inr, ◌==◌, ltb, true, false}
use wjmmmdvm.Base.Result.{Result, ok, err, stuck, ◌>>=◌, map_err}
use wjmmmdvm.Base.Io.{IoError, Connection}
use wjmmmdvm.Ambed.Protocol as Server
use wjmmmdvm.Sip.AmbeClient as Client

abbrev pub from_server : Server.Packet → Client.Packet
from_server (Server.control p) = Client.control p
from_server (Server.channel n bytes) = Client.channel n bytes
from_server (Server.speech samples) = Client.speech samples

-- An error about the bytes, not about the connection.
abbrev pub IsFormatError : Client.CodecError → Type 0
IsFormatError (Client.connect e) = ⊥
IsFormatError (Client.io e) = ⊥
IsFormatError (Client.malformed m) = Unit {0}
IsFormatError (Client.unexpected_reply b) = Unit {0}
IsFormatError (Client.wrong_bit_count a b) = Unit {0}
IsFormatError (Client.wrong_sample_count a b) = Unit {0}

-- The same packet with the same companion, the same error of the connection, or both an error
-- about the bytes.
module _ {A : Type 0} where
  abbrev pub FormatError : Result Client.CodecError A → Type 0
  FormatError (ok a) = ⊥
  FormatError (err e) = IsFormatError e
  FormatError stuck = ⊥

module _ {C : Type 0} where
  abbrev pub Same :
      Result Server.ProtocolError (Server.Packet × C)
      → Result Client.CodecError (Client.Packet × C)
      → Type 0
  Same (ok (p, c)) r = r ≡ ok (from_server p, c)
  Same (err (Server.io e)) r = r ≡ err (Client.io e)
  Same (err (Server.malformed m)) r = FormatError r
  Same (err (Server.too_large n)) r = FormatError r
  Same stuck r = r ≡ stuck

abbrev SameParse :
    Result Server.ProtocolError Server.Packet → Result Client.CodecError Client.Packet → Type 0
SameParse (ok p) r = r ≡ ok (from_server p)
SameParse (err (Server.io e)) r = ⊥
SameParse (err (Server.malformed m)) r = FormatError r
SameParse (err (Server.too_large n)) r = FormatError r
SameParse stuck r = ⊥

chunks_be-samples_of_be : (bs : List ℕ) → Client.chunks_be bs ≡ Server.samples_of_be bs
unfolding Client.chunks_be Server.samples_of_be
chunks_be-samples_of_be [] = refl
chunks_be-samples_of_be (a ∷ []) = refl
chunks_be-samples_of_be (a ∷ b ∷ bs) = ap (λ t. (a * 256 + b) ∷ t) (chunks_be-samples_of_be bs)

parse_channel-Same :
    (payload : List ℕ) → SameParse (Server.parse_channel payload) (Client.parse_channel payload)
unfolding Server.parse_channel Client.parse_channel
parse_channel-Same [] = tt
parse_channel-Same (a ∷ []) = tt
parse_channel-Same (a ∷ n ∷ rest) = elim (Bool-cases (a == 1)) [
  | inl t ↦ elim (Bool-cases (ltb (length rest) ((n + 8 - 1) / 8))) [
    | inl cut ↦
        let long : ltb (length (a ∷ n ∷ rest)) 2 ≡ false = ground arith in
        let cut' : ltb (length (a ∷ n ∷ rest)) (2 + (n + 8 - 1) / 8) ≡ true = ground arith in
        rw (t, cut, long, cut') tt
    | inr fits ↦
        let long : ltb (length (a ∷ n ∷ rest)) 2 ≡ false = ground arith in
        let fits' : ltb (length (a ∷ n ∷ rest)) (2 + (n + 8 - 1) / 8) ≡ false = ground arith in
        rw (t, fits, long, fits') refl
  ]
  | inr f ↦ let long : ltb (length (a ∷ n ∷ rest)) 2 ≡ false = ground arith in rw (f, long) tt
]

parse_speech-Same :
    (payload : List ℕ) → SameParse (Server.parse_speech payload) (Client.parse_speech payload)
unfolding Server.parse_speech Client.parse_speech
parse_speech-Same [] = tt
parse_speech-Same (a ∷ []) = tt
parse_speech-Same (a ∷ n ∷ rest) = elim (Bool-cases (a == 0)) [
  | inl t ↦ elim (Bool-cases (ltb (length rest) (n * 2))) [
    | inl cut ↦
        let long : ltb (length (a ∷ n ∷ rest)) 2 ≡ false = ground arith in
        let cut' : ltb (length (a ∷ n ∷ rest)) (2 + n * 2) ≡ true = ground arith in
        rw (t, cut, long, cut') tt
    | inr fits ↦
        let long : ltb (length (a ∷ n ∷ rest)) 2 ≡ false = ground arith in
        let fits' : ltb (length (a ∷ n ∷ rest)) (2 + n * 2) ≡ false = ground arith in
        rw (t, fits, long, fits')
          (ap (λ s. ok (Client.speech s)) (chunks_be-samples_of_be (take (n * 2) rest)))
  ]
  | inr f ↦ let long : ltb (length (a ∷ n ∷ rest)) 2 ≡ false = ground arith in rw (f, long) tt
]

parse_body-Same :
    (ty : ℕ) (payload : List ℕ)
    → SameParse (Server.parse_payload ty payload) (Client.parse_body ty payload)
unfolding Server.parse_payload Client.parse_body
parse_body-Same ty payload = elim (Bool-cases (ty == 0)) [
  | inl t ↦ rw t refl
  | inr f ↦ elim (Bool-cases (ty == 1)) [
    | inl t ↦ rw (f, t) (parse_channel-Same payload)
    | inr g ↦ elim (Bool-cases (ty == 2)) [
      | inl t ↦ rw (f, g, t) (parse_speech-Same payload)
      | inr i ↦ rw (f, g, i) tt
    ]
  ]
]

SameParse-Same :
    {C : Type 0} (c : C) (p : Result Server.ProtocolError Server.Packet)
    (q : Result Client.CodecError Client.Packet)
    → SameParse p q
    → Same (p >>= (λ x. ok (x, c))) (q >>= (λ x. ok (x, c)))
SameParse-Same c (ok p) q h = rw h refl
SameParse-Same c (err (Server.io e)) q h = absurd h
SameParse-Same c (err (Server.malformed m)) (err e) h = h
SameParse-Same c (err (Server.malformed m)) (ok e) h = absurd h
SameParse-Same c (err (Server.malformed m)) stuck h = absurd h
SameParse-Same c (err (Server.too_large m)) (err e) h = h
SameParse-Same c (err (Server.too_large m)) (ok e) h = absurd h
SameParse-Same c (err (Server.too_large m)) stuck h = absurd h
SameParse-Same c stuck q h = absurd h

module _ (net : Connection) where
  open net use {Conn, read_exact}

  body_cases :
      (ty : ℕ) (r : Result IoError (List ℕ × Conn))
      → Same
          (map_err Server.io r
            >>= (λ x. Server.parse_payload ty x.0 >>= (λ packet. ok (packet, x.1))))
          (map_err Client.io r >>= (λ x. Client.parse_body ty x.0 >>= (λ packet. ok (packet, x.1))))
  body_cases ty (ok (payload, c)) = SameParse-Same c _ _ (parse_body-Same ty payload)
  body_cases ty (err e) = refl
  body_cases ty stuck = refl

  frame_cases :
      (start : ℕ) (c₁ : Conn) (r : Result IoError (List ℕ × Conn))
      → read_exact 3 c₁ ≡ r
      → Same (Server.read_frame net (start, c₁)) (Client.recv_body net c₁)
  unfolding Server.read_frame Client.recv_body Server.header_of_bytes
  frame_cases start c₁ (ok (more, c₂)) e =
      let len = get_or more 0 0 * 256 + get_or more 1 0 in
      elim (Bool-cases (len == 0)) [
        | inl z ↦ rw (e, z) tt
        | inr nz ↦ elim (Bool-cases (ltb 4096 len)) [
          | inl big ↦ rw (e, nz, big) tt
          | inr fits ↦ rw (e, nz, fits) (body_cases (get_or more 2 0) (read_exact (len - 1) c₂))
        ]
      ]
  frame_cases start c₁ (err x) e = rw e refl
  frame_cases start c₁ stuck e = rw e refl

  start_cases :
      (fuel : ℕ) (c : Conn) (r : Result IoError (List ℕ × Conn))
      → read_exact 1 c ≡ r
      → ((c' : Conn) → Same (Server.read_packet net fuel c') (Client.recv_packet net fuel c'))
      → Same (Server.read_packet net (suc fuel) c) (Client.recv_packet net (suc fuel) c)
  unfolding Server.read_packet Client.recv_packet
  start_cases fuel c (ok (first, c')) e next = elim (Bool-cases (get_or first 0 0 == 0x61)) [
    | inl t ↦ rw (e, t) (frame_cases (get_or first 0 0) c' (read_exact 3 c') refl)
    | inr f ↦ rw (e, f) (next c')
  ]
  start_cases fuel c (err x) e next = rw e refl
  start_cases fuel c stuck e next = rw e refl

  -- For any fuel and connection, the client's `recv_packet` and the daemon's `read_packet` both
  -- return the same packet and leave the same connection, or both fail with the same error of the
  -- connection, or both refuse the bytes, or both run out of fuel.
  pub recv_packet-Same :
      (fuel : ℕ) (c : Conn) → Same (Server.read_packet net fuel c) (Client.recv_packet net fuel c)
  recv_packet-Same zero c = unfold Server.read_packet in unfold Client.recv_packet in refl
  recv_packet-Same (suc fuel) c = start_cases fuel c (read_exact 1 c) refl (recv_packet-Same fuel)
