-- ===== src/Sip/Dmr/Packet/Flags.antt =====
-- `DmrFlags` of mmdvm_sip/src/dmr/dmr_data.rs: the five fields of the flags byte.
use wjmmmdvm.Base.{
  ℕ, ◌+◌, ◌*◌, ◌-◌, ◌≤◌, ◌<◌, ◌≡◌, refl, arith, Bool, if◌then◌else◌, ltb, ◌==◌, ◌&&◌, leb,
}
use wjmmmdvm.Base.Below.{all_below, all_below_sound}
use wjmmmdvm.Sip.Dmr.Packet.{slot, is_private, data_sync, voice_sync, frame_or_data_type}

abbrev field : Bool → ℕ
field b = if b then 1 else 0

abbrev pub join_flags : ℕ → ℕ
join_flags f =
    (slot f - 1) * 128
    + field (is_private f) * 64
    + field (data_sync f) * 32
    + field (voice_sync f) * 16
    + frame_or_data_type f

flags_table :
    all_below 256 (λ f.
      (join_flags f == f) && (leb 1 (slot f) && (leb (slot f) 2 && ltb (frame_or_data_type f) 16)))
    ≡ Bool.true
unfolding all_below slot is_private data_sync voice_sync frame_or_data_type
flags_table = refl

-- For every flags byte, the slot less one, the private, data-sync and voice-sync flags and the
-- frame or data type, at their places, sum to the byte; the slot is 1 or 2 and the type is below
-- 16.
pub flags_partition :
    (f : ℕ)
    → f < 256
    → (join_flags f ≡ f) × (1 ≤ slot f) × (slot f ≤ 2) × (frame_or_data_type f < 16)
flags_partition f h = ground (arith, all_below_sound 256 _ flags_table f h)
