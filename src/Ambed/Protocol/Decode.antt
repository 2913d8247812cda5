-- ===== src/Ambed/Protocol/Decode.antt =====
-- `read_packet` of md380_emu_ambed/src/protocol.rs against a parser of byte lists.
use wjmmmdvm.Base.{ℕ, zero, suc, ◌+◌, ◌-◌, ◌*◌, ◌≤◌, ◌<◌, ◌≡◌, ◌≢◌, refl, ap, arith, List, [], ◌∷◌}
use wjmmmdvm.Base.{if◌then◌else◌, ltb, ◌==◌, length, take, drop, Bool-cases, inl, inr, ==_iff}
use wjmmmdvm.Base.{ltb→lt}
use wjmmmdvm.Base.Result.{Result, ok, err, stuck, ◌>>=◌}
use wjmmmdvm.Base.Io.{Wire, Connection}
use wjmmmdvm.Ambed.Protocol.{start_byte, ProtocolError, io, malformed, too_large, Packet}
use wjmmmdvm.Ambed.Protocol.{parse_payload, read_frame, read_packet}

pub data Parsed : Type 0 where
  got : Packet → List ℕ → Parsed
  bad : ProtocolError → Parsed
  short : Parsed

abbrev pub with_rest : List ℕ → Result ProtocolError Packet → Parsed
with_rest rest (ok p) = got p rest
with_rest rest (err e) = bad e
with_rest rest stuck = short

-- The frame after its start byte: length, type and payload.
unfoldable pub decode_frame : List ℕ → Parsed
decode_frame (hi ∷ lo ∷ type_byte ∷ body) =
    let n = hi * 256 + lo in
    if n == 0
    then bad (malformed "zero length")
    else if ltb 4096 n
    then bad (too_large n)
    else if ltb (length body) (n - 1)
    then short
    else with_rest (drop (n - 1) body) (parse_payload type_byte (take (n - 1) body))
decode_frame _ = short

unfoldable pub decode : List ℕ → Parsed
unfolding decode_frame
decode [] = short
decode (b ∷ rest) = if b == start_byte then decode_frame rest else decode rest

pub parse_payload-ne-stuck : (ty : ℕ) (payload : List ℕ) → parse_payload ty payload ≢ stuck
unfolding parse_payload
parse_payload-ne-stuck ty payload = ground arith

module _ (net : Connection) where
  open net use {Conn, read_exact, view, read_full, read_short}

  -- What the pure parser says of the bytes to come is what the reader returns, and the connection
  -- is left at the rest.
  abbrev pub Agrees : Conn → Parsed → Result ProtocolError (Packet × Conn) → Type 0
  Agrees c (got p rest) r =
      (c' : Conn) × (r ≡ ok (p, c')) × (view c' ≡ record (view c) { pending = rest })
  Agrees c (bad e) r = r ≡ err e
  Agrees c short r = r ≡ err (io (view c).ending)

  read_exactly :
      (n : ℕ) (c : Conn) (xs : List ℕ)
      → (view c).pending ≡ xs
      → n ≤ length xs
      → (c' : Conn) × (read_exact n c ≡ ok (take n xs, c'))
        × (view c' ≡ record (view c) { pending = drop n xs })
  read_exactly n c xs e h = rw e at (read_full n c (rw e h))

  read_fails :
      (n : ℕ) (c : Conn) (xs : List ℕ)
      → (view c).pending ≡ xs
      → length xs < n
      → read_exact n c ≡ err (view c).ending
  read_fails n c xs e h = read_short n c (rw e h)

  Agrees-move :
      (c c' : Conn) (p : Parsed) (r : Result ProtocolError (Packet × Conn)) (rest : List ℕ)
      → view c' ≡ record (view c) { pending = rest }
      → Agrees c' p r
      → Agrees c p r
  Agrees-move c c' (got p xs) r rest e (d, h, k) = (d, h, rw e at k)
  Agrees-move c c' (bad x) r rest e h = h
  Agrees-move c c' short r rest e h = rw e at h

  finish-Agrees :
      (c c₃ : Conn) (rest : List ℕ) (p : Result ProtocolError Packet)
      → p ≢ stuck
      → view c₃ ≡ record (view c) { pending = rest }
      → Agrees c (with_rest rest p) (p >>= λ packet. ok (packet, c₃))
  finish-Agrees c c₃ rest (ok q) h v = (c₃, refl, v)
  finish-Agrees c c₃ rest (err e) h v = refl
  finish-Agrees c c₃ rest stuck h v = absurd (h refl)

  pending_of :
      (c c' : Conn) {xs : List ℕ}
      → view c' ≡ record (view c) { pending = xs }
      → (view c').pending ≡ xs
  pending_of c c' v = ap (λ (w : Wire). w.pending) v

  read_payload-Agrees :
      (hi lo ty : ℕ) (body : List ℕ) (c c₂ : Conn)
      → read_exact 3 c ≡ ok (hi ∷ lo ∷ ty ∷ [], c₂)
      → (view c₂).pending ≡ body
      → Agrees c₂ (decode_frame (hi ∷ lo ∷ ty ∷ body)) (read_frame net (start_byte, c))
  unfolding decode_frame read_frame
  read_payload-Agrees hi lo ty body c c₂ r e =
      let n = hi * 256 + lo in
      elim (Bool-cases (n == 0)) [
        | inl z ↦ rw (r, z) refl
        | inr nz ↦ elim (Bool-cases (ltb 4096 n)) [
          | inl big ↦ rw (r, nz, big) refl
          | inr fits ↦ elim (Bool-cases (ltb (length body) (n - 1))) [
            | inl cut ↦ rw (r, nz, fits, cut, read_fails (n - 1) c₂ body e (ltb→lt _ _ cut)) refl
            | inr whole ↦
                let (c₃, r₃, v₃) = read_exactly (n - 1) c₂ body e (ground arith) in
                rw (r, nz, fits, whole, r₃)
                  (finish-Agrees c₂ c₃ _ (parse_payload ty _) (parse_payload-ne-stuck ty _) v₃)
          ]
        ]
      ]

  read_frame-Agrees :
      (xs : List ℕ) (c : Conn)
      → (view c).pending ≡ xs
      → Agrees c (decode_frame xs) (read_frame net (start_byte, c))
  unfolding decode_frame
  read_frame-Agrees [] c e = unfold read_frame in rw (read_fails 3 c _ e (omega arith)) refl
  read_frame-Agrees (a ∷ []) c e = unfold read_frame in rw (read_fails 3 c _ e (omega arith)) refl
  read_frame-Agrees (a ∷ b ∷ []) c e =
      unfold read_frame in rw (read_fails 3 c _ e (omega arith)) refl
  read_frame-Agrees (hi ∷ lo ∷ ty ∷ body) c e =
      let (c₂, r, v) = read_exactly 3 c _ e (omega arith) in
      Agrees-move c c₂ _ _ body v (read_payload-Agrees hi lo ty body c c₂ r (pending_of c c₂ v))

  read_frame-Agrees_at :
      (b : ℕ) (xs : List ℕ) (c : Conn)
      → b ≡ start_byte
      → (view c).pending ≡ xs
      → Agrees c (decode_frame xs) (read_frame net (b, c))
  read_frame-Agrees_at b xs c e h = rw e (read_frame-Agrees xs c h)

  resync-Agrees :
      (xs : List ℕ) (fuel : ℕ) (c : Conn)
      → (view c).pending ≡ xs
      → length xs < fuel
      → Agrees c (decode xs) (read_packet net fuel c)
  unfolding decode read_packet
  resync-Agrees xs zero c e h = absurd (omega arith)
  resync-Agrees [] (suc fuel) c e h = rw (read_fails 1 c _ e (omega arith)) refl
  resync-Agrees (b ∷ xs) (suc fuel) c e h =
      let (c', r, v) = read_exactly 1 c _ e (omega arith) in
      elim (Bool-cases (b == start_byte)) [
        | inl t ↦
            rw (r, t)
              (Agrees-move c c' _ _ xs v
                (read_frame-Agrees_at b xs c' ((==_iff _ _).0 t) (pending_of c c' v)))
        | inr f ↦
            rw (r, f)
              (Agrees-move c c' _ _ xs v
                (resync-Agrees xs fuel c' (pending_of c c' v) (omega arith)))
      ]

  -- With fuel above the number of bytes to come, `read_packet` on any connection agrees with the
  -- parser `decode` of byte lists: the same packet and the rest of the bytes left to come, the
  -- same protocol error, or the connection's own error where the bytes end inside a frame.
  pub read_packet_refines :
      (fuel : ℕ) (c : Conn)
      → length (view c).pending < fuel
      → Agrees c (decode (view c).pending) (read_packet net fuel c)
  read_packet_refines fuel c h = resync-Agrees _ fuel c refl h
