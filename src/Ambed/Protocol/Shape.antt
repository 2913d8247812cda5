-- ===== src/Ambed/Protocol/Shape.antt =====
-- What `read_packet` of md380_emu_ambed/src/protocol.rs accepts is well formed, and each frame
-- takes bytes off the stream.
use wjmmmdvm.Base.{ℕ, zero, suc, ◌+◌, ◌-◌, ◌*◌, ◌/◌, ◌^◌, ◌≤◌, ◌<◌, ◌≡◌, refl, ap, arith}
use wjmmmdvm.Base.{
  List, [], ◌∷◌, length, take, drop, All, All-take, All-drop, length-take, length-drop,
}
use wjmmmdvm.Base.{Bool-cases, inl, inr, ◌==◌, ltb}
use wjmmmdvm.Base.Result.{Result, ok, err, stuck, OnOk}
use wjmmmdvm.Ambed.Protocol.{Packet, ProtocolError}
use wjmmmdvm.Ambed.Protocol.{parse_payload, parse_channel, parse_speech, samples_of_be}
use wjmmmdvm.Ambed.Protocol.Decode.{Parsed, got, bad, short, with_rest, decode, decode_frame}
use wjmmmdvm.Ambed.Protocol.RoundTrip.{IsWire}

abbrev pub IsByte : ℕ → Type 0
IsByte b = b < 256

samples_of_be_shape :
    (k : ℕ) (bs : List ℕ)
    → All IsByte bs
    → length bs ≡ k * 2
    → (length (samples_of_be bs) ≡ k) × All (λ s. s < 2 ^ 16) (samples_of_be bs)
unfolding samples_of_be
samples_of_be_shape zero [] h e = (refl, tt)
samples_of_be_shape (suc k) [] h e = absurd (omega arith)
samples_of_be_shape k (a ∷ []) h e = absurd (omega arith)
samples_of_be_shape zero (a ∷ b ∷ bs) h e = absurd (omega arith)
samples_of_be_shape (suc k) (a ∷ b ∷ bs) (ha, (hb, h)) e =
    let (n, all) = samples_of_be_shape k bs h (omega arith) in (ap suc n, (omega arith, all))

parse_channel-IsWire : (payload : List ℕ) → All IsByte payload → OnOk IsWire (parse_channel payload)
unfolding parse_channel
parse_channel-IsWire [] h = tt
parse_channel-IsWire (a ∷ []) h = tt
parse_channel-IsWire (a ∷ n ∷ bytes) (ha, (hn, h)) = elim (Bool-cases (a == 1)) [
  | inl t ↦ elim (Bool-cases (ltb (length bytes) ((n + 8 - 1) / 8))) [
    | inl cut ↦ rw (t, cut) tt
    | inr fits ↦ rw (t, fits) (hn, ground (arith, length-take ((n + 8 - 1) / 8) bytes))
  ]
  | inr f ↦ rw f tt
]

parse_speech-IsWire : (payload : List ℕ) → All IsByte payload → OnOk IsWire (parse_speech payload)
unfolding parse_speech
parse_speech-IsWire [] h = tt
parse_speech-IsWire (a ∷ []) h = tt
parse_speech-IsWire (a ∷ n ∷ bytes) (ha, (hn, h)) = elim (Bool-cases (a == 0)) [
  | inl t ↦ elim (Bool-cases (ltb (length bytes) (n * 2))) [
    | inl cut ↦ rw (t, cut) tt
    | inr fits ↦
        let (len, all) =
          samples_of_be_shape n (take (n * 2) bytes) (All-take IsByte (n * 2) bytes h)
            (ground (arith, length-take (n * 2) bytes)) in
        rw (t, fits) (omega (arith, len), all)
  ]
  | inr f ↦ rw f tt
]

parse_payload-IsWire :
    (ty : ℕ) (payload : List ℕ)
    → All IsByte payload
    → length payload ≤ 4095
    → OnOk IsWire (parse_payload ty payload)
unfolding parse_payload
parse_payload-IsWire ty payload h k = elim (Bool-cases (ty == 0)) [
  | inl t ↦ rw t k
  | inr f ↦ elim (Bool-cases (ty == 1)) [
    | inl t ↦ rw (f, t) (parse_channel-IsWire payload h)
    | inr g ↦ elim (Bool-cases (ty == 2)) [
      | inl t ↦ rw (f, g, t) (parse_speech-IsWire payload h)
      | inr i ↦ rw (f, g, i) tt
    ]
  ]
]

-- The predicate holds of a frame that was parsed, with what follows it.
abbrev pub OnGot : (Packet → List ℕ → Type 0) → Parsed → Type 0
OnGot P (got p rest) = P p rest
OnGot P (bad e) = Unit {0}
OnGot P short = Unit {0}

-- A well-formed packet, and bytes that are a proper end of the input.
abbrev pub Accepts : ℕ → Packet → List ℕ → Type 0
Accepts n p rest = IsWire p × All IsByte rest × (length rest + 4 ≤ n)

with_rest-Accepts :
    (n : ℕ) (rest : List ℕ) (r : Result ProtocolError Packet)
    → OnOk IsWire r
    → All IsByte rest
    → length rest + 4 ≤ n
    → OnGot (Accepts n) (with_rest rest r)
with_rest-Accepts n rest (ok p) w h k = (w, h, k)
with_rest-Accepts n rest (err e) w h k = tt
with_rest-Accepts n rest stuck w h k = tt

decode_frame-Accepts :
    (xs : List ℕ) → All IsByte xs → OnGot (Accepts (suc (length xs))) (decode_frame xs)
unfolding decode_frame
decode_frame-Accepts [] h = tt
decode_frame-Accepts (a ∷ []) h = tt
decode_frame-Accepts (a ∷ b ∷ []) h = tt
decode_frame-Accepts (hi ∷ lo ∷ ty ∷ body) (ha, (hb, (hc, h))) =
    let n = hi * 256 + lo in
    elim (Bool-cases (n == 0)) [
      | inl z ↦ rw z tt
      | inr nz ↦ elim (Bool-cases (ltb 4096 n)) [
        | inl big ↦ rw (nz, big) tt
        | inr fits ↦ elim (Bool-cases (ltb (length body) (n - 1))) [
          | inl cut ↦ rw (nz, fits, cut) tt
          | inr whole ↦
              rw (nz, fits, whole)
                (with_rest-Accepts _ (drop (n - 1) body) (parse_payload ty (take (n - 1) body))
                  (parse_payload-IsWire ty _ (All-take IsByte (n - 1) body h)
                    (ground (arith, length-take (n - 1) body)))
                  (All-drop IsByte (n - 1) body h) (ground (arith, length-drop (n - 1) body)))
        ]
      ]
    ]

Accepts-more : (n m : ℕ) (p : Parsed) → n ≤ m → OnGot (Accepts n) p → OnGot (Accepts m) p
Accepts-more n m (got p rest) h (w, b, k) = (w, b, omega arith)
Accepts-more n m (bad e) h a = tt
Accepts-more n m short h a = tt

pub decode-Accepts : (xs : List ℕ) → All IsByte xs → OnGot (Accepts (length xs)) (decode xs)
unfolding decode
decode-Accepts [] h = tt
decode-Accepts (b ∷ xs) h = elim (Bool-cases (b == 0x61)) [
  | inl t ↦ rw t (decode_frame-Accepts xs h.1)
  | inr f ↦ rw f (Accepts-more (length xs) _ (decode xs) (omega arith) (decode-Accepts xs h.1))
]
