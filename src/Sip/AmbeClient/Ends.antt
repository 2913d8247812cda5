-- ===== src/Sip/AmbeClient/Ends.antt =====
-- `decode` of mmdvm_sip/src/ambe_codec_client.rs with any bytes to come: it comes back, with as many
-- samples as a frame has or with an error.
use wjmmmdvm.Base.{
  ℕ, zero, suc, ◌+◌, ◌-◌, ◌*◌, ◌/◌, ◌%◌, ◌^◌, ◌∙◌, ◌≤◌, ◌<◌, ◌≡◌, ap, arith, Bool, true, false,
  ◌||◌, not, Bool-cases, inl, inr, if◌then◌else◌, ltb, ◌==◌, List, ◌∷◌, length, take, drop,
  length-drop, get_or,
}
use wjmmmdvm.Base.Result.{
  Result, ok, err, stuck, EndsIn, map_err, >>=-EndsIn, map_err-EndsIn, Returns-EndsIn, Returns,
}
use wjmmmdvm.Base.Io.{Wire, Connection}
use wjmmmdvm.Sip.AmbeClient.{
  CodecError, io, malformed, chunks_be, Packet, control, channel, speech, chand_tag,
  ambe_voice_bits, speechd_tag, start_byte, type_control, type_channel, type_speech,
  frame_pcm_samples, parse_channel, parse_speech, parse_body, wait_start, recv_body, recv_packet,
  send_packet, samples_of_reply, decode,
}

if-Returns :
    {A : Type 0} (b : Bool) (x y : Result CodecError A)
    → Returns x
    → Returns y
    → Returns (if b then x else y)
if-Returns true x y h k = h
if-Returns false x y h k = k

parse_body-Returns : (type_byte : ℕ) (payload : List ℕ) → Returns (parse_body type_byte payload)
unfolding parse_body parse_channel parse_speech
parse_body-Returns type_byte payload =
    let c = get_or payload 1 0 in
    let n = length payload in
    if-Returns (type_byte == type_control) _ _ tt (
      if-Returns (type_byte == type_channel) _ _
        (if-Returns (ltb n 2) _ _ tt (
          if-Returns (not (get_or payload 0 0 == chand_tag)) _ _ tt (
            if-Returns (ltb n (2 + (c + 8 - 1) / 8)) (err (malformed "channel: truncated"))
              (ok (channel c (take ((c + 8 - 1) / 8) (drop 2 payload)))) tt tt)))
        (if-Returns (type_byte == type_speech) _ _
          (if-Returns (ltb n 2) _ _ tt (
            if-Returns (not (get_or payload 0 0 == speechd_tag)) _ _ tt (
              if-Returns (ltb n (2 + c * 2)) (err (malformed "speech: truncated"))
                (ok (speech (chunks_be (take (c * 2) (drop 2 payload))))) tt tt)))
          tt))

at_most :
    {A : Type 0} (f : A → ℕ) {n m : ℕ} (w : Result CodecError A)
    → EndsIn (λ a. f a ≤ n) w
    → n ≤ m
    → EndsIn (λ a. f a ≤ m) w
at_most f (ok r) h k = omega arith
at_most f (err e) h k = tt
at_most f stuck h k = h

module _ (net : Connection) where
  open net use {
    Conn, view, read_exact, write_all, flush, read_full, read_short, write_effect, flush_effect,
  }

  -- The number of bytes to come.
  abbrev pub left : Conn → ℕ
  left c = length (view c).pending

  read_exact-EndsIn : (n : ℕ) (c : Conn) → EndsIn (λ r. left r.1 + n ≡ left c) (read_exact n c)
  read_exact-EndsIn n c = elim (Bool-cases (ltb (left c) n)) [
    | inl short ↦ rw (read_short n c (ground arith)) tt
    | inr full ↦
        let enough : n ≤ left c = ground arith in
        let (c', e, v) = read_full n c enough in
        rw e (
          omega
            (arith, ap (λ (w : Wire). length w.pending) v, length-drop n (view c).pending, enough))
  ]

  wait_start-EndsIn :
      (fuel : ℕ) (c : Conn)
      → left c < fuel
      → EndsIn (λ c'. left c' ≤ left c) (wait_start net fuel c)
  unfolding wait_start
  wait_start-EndsIn zero c h = absurd (omega arith)
  wait_start-EndsIn (suc fuel) c h =
      >>=-EndsIn (λ r. left r.1 + 1 ≡ left c) (λ c'. left c' ≤ left c) (map_err io (read_exact 1 c))
        _ (map_err-EndsIn _ io (read_exact 1 c) (read_exact-EndsIn 1 c))
        (λ r k. elim (Bool-cases (get_or r.0 0 0 == start_byte)) [
          | inl t ↦ rw t (omega arith)
          | inr f ↦ rw f (
              at_most left (wait_start net fuel r.1) (wait_start-EndsIn fuel r.1 (omega arith))
                (omega arith))
        ])

  recv_body-EndsIn : (c : Conn) → EndsIn (λ r. left r.1 ≤ left c) (recv_body net c)
  unfolding recv_body
  recv_body-EndsIn c =
      >>=-EndsIn (λ r. left r.1 + 3 ≡ left c) (λ r. left r.1 ≤ left c) (map_err io (read_exact 3 c))
        _ (map_err-EndsIn _ io (read_exact 3 c) (read_exact-EndsIn 3 c))
        (λ r k.
          let len = get_or r.0 0 0 * 256 + get_or r.0 1 0 in
          elim (Bool-cases (len == 0 || ltb 4096 len)) [
            | inl t ↦ rw t tt
            | inr f ↦ rw f (
                >>=-EndsIn (λ q. left q.1 + (len - 1) ≡ left r.1) (λ q. left q.1 ≤ left c)
                  (map_err io (read_exact (len - 1) r.1)) _
                  (map_err-EndsIn _ io (read_exact (len - 1) r.1) (read_exact-EndsIn (len - 1) r.1))
                  (λ q l.
                    >>=-EndsIn (λ x. Unit {0}) (λ p. left p.1 ≤ left c)
                      (parse_body (get_or r.0 2 0) q.0) _ (parse_body-Returns (get_or r.0 2 0) q.0)
                      (λ x u. omega arith)))
          ])

  recv_packet-EndsIn :
      (fuel : ℕ) (c : Conn)
      → left c < fuel
      → EndsIn (λ r. left r.1 ≤ left c) (recv_packet net fuel c)
  unfolding recv_packet
  recv_packet-EndsIn fuel c h =
      >>=-EndsIn (λ c'. left c' ≤ left c) (λ r. left r.1 ≤ left c) (wait_start net fuel c)
        (recv_body net) (wait_start-EndsIn fuel c h)
        (λ c' k. at_most (λ r. left r.1) (recv_body net c') (recv_body-EndsIn c') k)

  -- What `decode` has to come and returns.
  abbrev pub IsDecoded : ℕ → List ℕ × Conn → Type 0
  IsDecoded n r = (length r.0 ≡ 160) × (left r.1 ≤ n)

  samples_of_reply-EndsIn :
      (n : ℕ) (r : Packet × Conn) → left r.1 ≤ n → EndsIn (IsDecoded n) (samples_of_reply net r)
  unfolding samples_of_reply
  samples_of_reply-EndsIn n (speech samples, c) h =
      elim (Bool-cases (length samples == frame_pcm_samples)) [
        | inl t ↦ rw t (ground arith, h)
        | inr f ↦ rw f tt
      ]
  samples_of_reply-EndsIn n (control payload, c) h = tt
  samples_of_reply-EndsIn n (channel bit_count bytes, c) h = tt

  module _ (writes : (bs : List ℕ) (c : Conn) → Returns (write_all bs c))
      (flushes : (c : Conn) → Returns (flush c)) where
    send_packet-EndsIn :
        (type_byte : ℕ) (body : List ℕ) (c : Conn)
        → EndsIn (λ c'. left c' ≡ left c) (send_packet net type_byte body c)
    unfolding send_packet
    send_packet-EndsIn type_byte body c =
        let buf =
          start_byte
          ∷ (1 + length body) % 2 ^ 16 / 256
          ∷ (1 + length body) % 2 ^ 16 % 256
          ∷ type_byte
          ∷ body in
        >>=-EndsIn (λ c'. left c' ≡ left c) (λ c'. left c' ≡ left c) (map_err io (write_all buf c))
          _
          (map_err-EndsIn _ io (write_all buf c) (
            Returns-EndsIn _ (write_all buf c) (writes buf c)
              (λ c' e. ap (λ (w : Wire). length w.pending) (write_effect buf c c' e))))
          (λ c₁ k. map_err-EndsIn _ io (flush c₁) (
            Returns-EndsIn _ (flush c₁) (flushes c₁)
              (λ c₂ e. ap (λ (w : Wire). length w.pending) (flush_effect c₁ c₂ e) ∙ k)))

    -- For a connection whose writes come back, and fuel above the number of bytes to come,
    -- `decode` comes back: with 160 samples, and no more bytes to come than before, or with an
    -- error.
    pub decode-EndsIn :
        (fuel : ℕ) (ambe : List ℕ) (c : Conn)
        → left c < fuel
        → EndsIn (IsDecoded (left c)) (decode net fuel ambe c)
    unfolding decode
    decode-EndsIn fuel ambe c h =
        let body = chand_tag ∷ ambe_voice_bits ∷ ambe in
        >>=-EndsIn (λ c'. left c' ≡ left c) (IsDecoded (left c))
          (send_packet net type_channel body c) _ (send_packet-EndsIn type_channel body c)
          (λ c₁ k.
            >>=-EndsIn (λ r. left r.1 ≤ left c₁) (IsDecoded (left c)) (recv_packet net fuel c₁)
              (samples_of_reply net) (recv_packet-EndsIn fuel c₁ (omega arith))
              (λ r l. samples_of_reply-EndsIn (left c) r (omega arith)))
