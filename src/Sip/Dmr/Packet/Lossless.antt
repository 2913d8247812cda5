-- ===== src/Sip/Dmr/Packet/Lossless.antt =====
-- `Packet::parse` of mmdvm_sip/src/dmr/packet.rs: it tells the four types apart and loses no byte.
use wjmmmdvm.Base.{◌&&◌, ◌||◌, drop_all, suc, ℕ, ◌+◌, ◌≤◌, ◌<◌, ◌≡◌, refl, sym, ap, ap₂, ◌∙◌, arith}
use wjmmmdvm.Base.{
  List, [], ◌∷◌, ◌++◌, length, take, drop, get_or, All, All-take, All-drop, inl, inr, take_all,
  take-append-drop,
}
use wjmmmdvm.Base.{
  length-take, length-drop, Bool, false, Bool-cases, ltb, ◌==◌, some, if◌then◌else◌, replicate,
}
use wjmmmdvm.Base.BitList.{same, same_sound}
use wjmmmdvm.Base.Index.{drop-suc, segment, elements, elements_lem, All-get_or_any}
use wjmmmdvm.Ambed.Protocol.Shape.{IsByte}
use wjmmmdvm.Sip.Dmr.Packet.{
  Packet, DmrData, data_packet, config_packet, gps_packet, alias_packet, unknown, parse, or_unknown,
  data_of_bytes, data_as_bytes, opaque_of_bytes, u32_be, u32_bytes, data_magic, config_magic,
  gps_magic, alias_magic,
}

u32_bytes-u32_be : (b : List ℕ) → All IsByte b → length b ≡ 4 → u32_bytes (u32_be b) ≡ b
unfolding u32_bytes u32_be elements
u32_bytes-u32_be b h e =
    ap₂ ◌∷◌ (omega (arith, at 0, at 1, at 2, at 3)) (
      ap₂ ◌∷◌ (omega (arith, at 0, at 1, at 2, at 3)) (
        ap₂ ◌∷◌ (omega (arith, at 0, at 1, at 2, at 3))
          (ap (λ x. x ∷ []) (omega (arith, at 0, at 1, at 2, at 3)))))
    ∙ elements_lem 4 0 b (omega arith)
    ∙ take_all 4 b (sym e)
  where
    at : (i : ℕ) → IsByte (get_or b i 0)
    at i = All-get_or_any IsByte b i 0 h (omega arith)

module _ (b : List ℕ) (bytes : All IsByte b) (size : length b ≡ 55) where
  u32_at :
      (n m : ℕ) → m ≡ n + 4 → m ≤ 55 → u32_bytes (u32_be (take 4 (drop n b))) ++ drop m b ≡ drop n b
  u32_at n m e h =
      ap (λ w. w ++ drop m b)
        (u32_bytes-u32_be (take 4 (drop n b))
          (All-take IsByte 4 (drop n b) (All-drop IsByte n b bytes))
          (omega (arith, length-take 4 (drop n b), length-drop n b)))
      ∙ segment n 4 m b e

  byte_at : (n m : ℕ) → m ≡ suc n → n < 55 → get_or b n 0 ∷ drop m b ≡ drop n b
  byte_at n m e h = ap (λ k. get_or b n 0 ∷ drop k b) e ∙ sym (drop-suc n b 0 (omega arith))

  tail_lem : take 33 (drop 20 b) ++ get_or b 53 0 ∷ get_or b 54 0 ∷ [] ≡ drop 20 b
  tail_lem =
      ap (λ t. take 33 (drop 20 b) ++ get_or b 53 0 ∷ get_or b 54 0 ∷ t)
        (sym (drop_all 55 b (sym size)))
      ∙ ap (λ t. take 33 (drop 20 b) ++ get_or b 53 0 ∷ t) (byte_at 54 55 refl (omega arith))
      ∙ ap (λ t. take 33 (drop 20 b) ++ t) (byte_at 53 54 refl (omega arith))
      ∙ segment 20 33 53 b refl

  middle_lem :
      u32_bytes (u32_be (take 4 (drop 11 b)))
        ++ (get_or b 15 0 ∷ u32_bytes (u32_be (take 4 (drop 16 b)))
            ++ (take 33 (drop 20 b) ++ get_or b 53 0 ∷ get_or b 54 0 ∷ []))
      ≡ drop 11 b
  middle_lem =
      ap
        (λ t.
          u32_bytes (u32_be (take 4 (drop 11 b)))
          ++ (get_or b 15 0 ∷ u32_bytes (u32_be (take 4 (drop 16 b))) ++ t))
        tail_lem
      ∙ ap (λ t. u32_bytes (u32_be (take 4 (drop 11 b))) ++ (get_or b 15 0 ∷ t))
          (u32_at 16 20 refl (omega arith))
      ∙ ap (λ t. u32_bytes (u32_be (take 4 (drop 11 b))) ++ t) (byte_at 15 16 refl (omega arith))
      ∙ u32_at 11 15 refl (omega arith)

  pub data_as_bytes-data_of_bytes :
      (p : DmrData) × (data_of_bytes b ≡ some p) × (data_as_bytes p ≡ b) × (p.magic ≡ take 4 b)
  unfolding data_of_bytes data_as_bytes
  data_as_bytes-data_of_bytes = (
    record {
      magic = take 4 b;
      seq = get_or b 4 0;
      src_id = take 3 (drop 5 b);
      dst_id = take 3 (drop 8 b);
      repeater_id = u32_be (take 4 (drop 11 b));
      flags = get_or b 15 0;
      stream_id = u32_be (take 4 (drop 16 b));
      payload = take 33 (drop 20 b);
      ber = get_or b 53 0;
      rssi = get_or b 54 0;
    },
    ground arith,
    ap (λ t. take 4 b ++ get_or b 4 0 ∷ (take 3 (drop 5 b) ++ (take 3 (drop 8 b) ++ t))) middle_lem
        ∙ ap (λ t. take 4 b ++ get_or b 4 0 ∷ (take 3 (drop 5 b) ++ t)) (segment 8 3 11 b refl)
        ∙ ap (λ t. take 4 b ++ get_or b 4 0 ∷ t) (segment 5 3 8 b refl)
        ∙ ap (λ t. take 4 b ++ t) (byte_at 4 5 refl (omega arith))
        ∙ take-append-drop 4 b,
    refl,
  )

-- The datagram starts with the magic and has the size of its struct.
abbrev pub fits : List ℕ → List ℕ → ℕ → Bool
fits b magic size = same (take 4 b) magic && (length b == size)

-- A datagram of one of the four types.
abbrev pub is_known : List ℕ → Bool
is_known b =
    fits b data_magic 55
    || (fits b config_magic 119 || (fits b gps_magic 14 || fits b alias_magic 15))

-- What the parser may say of the datagram `b`.
abbrev pub Describes : List ℕ → Packet → Type 0
Describes b (data_packet p) = (p.magic ≡ data_magic) × (length b ≡ 55) × (data_as_bytes p ≡ b)
Describes b (config_packet o) =
    (o.magic ≡ config_magic) × (length b ≡ 119) × (o.magic ++ o.data_bytes ≡ b)
Describes b (gps_packet o) = (o.magic ≡ gps_magic) × (length b ≡ 14) × (o.magic ++ o.data_bytes ≡ b)
Describes b (alias_packet o) =
    (o.magic ≡ alias_magic) × (length b ≡ 15) × (o.magic ++ o.data_bytes ≡ b)
Describes b (unknown magic len) =
    (is_known b ≡ false)
    × (len ≡ length b)
    × (magic ≡ (if ltb (length b) 4 then replicate 4 0 else take 4 b))

module _ (b : List ℕ) (long : ltb (length b) 4 ≡ false) where
  data_case :
      All IsByte b
      → take 4 b ≡ data_magic
      → Describes b (or_unknown data_packet b (data_of_bytes b))
  unfolding same data_of_bytes
  data_case h e = elim (Bool-cases (length b == 55)) [
    | inl sized ↦
        let (p, q, r, m) = data_as_bytes-data_of_bytes b h (ground arith) in
        rw q (m ∙ e, ground arith, r)
    | inr other ↦ rw (other, long, e) (ap (λ t. t || false) other, refl, refl)
  ]

  config_case :
      take 4 b ≡ config_magic → Describes b (or_unknown config_packet b (opaque_of_bytes 119 b))
  unfolding same opaque_of_bytes
  config_case e = elim (Bool-cases (length b == 119)) [
    | inl sized ↦ rw sized (e, ground arith, take-append-drop 4 b)
    | inr other ↦ rw (other, long, e) (ap (λ t. t || false) other, refl, refl)
  ]

  gps_case : take 4 b ≡ gps_magic → Describes b (or_unknown gps_packet b (opaque_of_bytes 14 b))
  unfolding same opaque_of_bytes
  gps_case e = elim (Bool-cases (length b == 14)) [
    | inl sized ↦ rw sized (e, ground arith, take-append-drop 4 b)
    | inr other ↦ rw (other, long, e) (ap (λ t. t || false) other, refl, refl)
  ]

  alias_case :
      take 4 b ≡ alias_magic → Describes b (or_unknown alias_packet b (opaque_of_bytes 15 b))
  unfolding same opaque_of_bytes
  alias_case e = elim (Bool-cases (length b == 15)) [
    | inl sized ↦ rw sized (e, ground arith, take-append-drop 4 b)
    | inr other ↦ rw (other, long, e) (other, refl, refl)
  ]

-- For every datagram of bytes, `parse` returns a typed packet only where the magic and the size
-- are those of its type, and then the packet's fields written one after the other are the
-- datagram; it returns `unknown`, with the magic and the length of the datagram, or a zero magic
-- below four bytes, only where no type fits.
pub parse-Describes : (b : List ℕ) → All IsByte b → Describes b (parse b)
unfolding parse
parse-Describes b h = elim (Bool-cases (ltb (length b) 4)) [
  | inl short ↦ rw short (ground arith, refl, ground arith)
  | inr long ↦ rw long (elim (Bool-cases (same (take 4 b) data_magic)) [
    | inl d ↦ rw d (data_case b long h (same_sound _ _ d))
    | inr nd ↦ rw nd (elim (Bool-cases (same (take 4 b) config_magic)) [
      | inl c ↦ rw c (config_case b long (same_sound _ _ c))
      | inr nc ↦ rw nc (elim (Bool-cases (same (take 4 b) gps_magic)) [
        | inl g ↦ rw g (gps_case b long (same_sound _ _ g))
        | inr ng ↦ rw ng (elim (Bool-cases (same (take 4 b) alias_magic)) [
          | inl a ↦ rw a (alias_case b long (same_sound _ _ a))
          | inr na ↦ rw na (rw (nd, nc, ng, na) refl, refl, rw long refl)
        ])
      ])
    ])
  ])
]
