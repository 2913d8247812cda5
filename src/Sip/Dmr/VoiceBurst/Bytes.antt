-- ===== src/Sip/Dmr/VoiceBurst/Bytes.antt =====
-- Eight bits to a byte, and `payload_bits` of mmdvm_sip/src/dmr/voice_burst.rs, which takes them apart.
use wjmmmdvm.Base.{ℕ, zero, suc, ◌*◌, ◌≡◌, refl, ap₂, ◌∙◌, arith}
use wjmmmdvm.Base.{List, [], ◌∷◌, ◌++◌, length, take, drop, All}
use wjmmmdvm.Base.{All-take, All-drop, length-take, length-drop, take-append-drop}
use wjmmmdvm.Base.BitList.{IsBit}
use wjmmmdvm.Base.Bytes.{byte_of, byte_bits-byte_of}
use wjmmmdvm.Sip.Dmr.VoiceBurst.{payload_bits}

-- `n` bytes, the first bit on top.
unfoldable pub pack_bytes : ℕ → List ℕ → List ℕ
unfolding byte_of
pack_bytes zero bits = []
pack_bytes (suc n) bits = byte_of (take 8 bits) ∷ pack_bytes n (drop 8 bits)

pub payload_bits-pack_bytes :
    (n : ℕ) (bits : List ℕ)
    → All IsBit bits
    → length bits ≡ n * 8
    → payload_bits (pack_bytes n bits) ≡ bits
unfolding payload_bits pack_bytes
payload_bits-pack_bytes zero [] h e = refl
payload_bits-pack_bytes zero (b ∷ bits) h e = absurd (omega arith)
payload_bits-pack_bytes (suc n) bits h e =
    ap₂ ◌++◌
      (byte_bits-byte_of (take 8 bits) (All-take IsBit 8 bits h)
        (omega (arith, length-take 8 bits)))
      (payload_bits-pack_bytes n (drop 8 bits) (All-drop IsBit 8 bits h)
        (omega (arith, length-drop 8 bits)))
    ∙ take-append-drop 8 bits
