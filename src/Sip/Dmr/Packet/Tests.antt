-- ===== src/Sip/Dmr/Packet/Tests.antt =====
-- Runs of the packet parser, and its theorems at concrete inputs.
use wjmmmdvm.Base.{ℕ, ◌≡◌, ◌≤◌, ◌<◌, refl, arith, List, [], ◌∷◌, ◌++◌, replicate}
use wjmmmdvm.Sip.Dmr.Packet.{Packet, unknown, parse, slot, frame_or_data_type}
use wjmmmdvm.Sip.Dmr.Packet.Lossless.{Describes, parse-Describes}
use wjmmmdvm.Sip.Dmr.Packet.Flags.{join_flags, flags_partition}

-- A burst of slot 2 with `0xab` in the payload.
abbrev burst : List ℕ
burst =
    0x44
      ∷ 0x4d
      ∷ 0x52
      ∷ 0x44
      ∷ 1
      ∷ 1
      ∷ 2
      ∷ 3
      ∷ 4
      ∷ 5
      ∷ 6
      ∷ 7
      ∷ 8
      ∷ 9
      ∷ 0x10
      ∷ 0xc1
      ∷ 0xde
      ∷ 0xad
      ∷ 0xbe
      ∷ 0xef
      ∷ replicate 33 0xab
    ++ 5 ∷ 200 ∷ []

short_gps : parse (0x44 ∷ 0x4d ∷ 0x52 ∷ 0x47 ∷ 1 ∷ []) ≡ unknown (0x44 ∷ 0x4d ∷ 0x52 ∷ 0x47 ∷ []) 5
unfolding parse wjmmmdvm.Base.BitList.same wjmmmdvm.Sip.Dmr.Packet.opaque_of_bytes
short_gps = refl

parse-Describes_example : Describes burst (parse burst)
parse-Describes_example = parse-Describes burst (omega arith)

flags_parts :
    (join_flags 0xc1 ≡ 0xc1) × (1 ≤ slot 0xc1) × (slot 0xc1 ≤ 2) × (frame_or_data_type 0xc1 < 16)
flags_parts = flags_partition 0xc1 (omega arith)
