-- ===== src/Sip/Dmr/Packet.antt =====
-- mmdvm_sip/src/dmr/packet.rs with dmr_data.rs, dmr_config.rs, dmr_gps.rs and dmr_alias.rs: the
-- datagrams of the repeater. Their structs are `repr(C, packed)`: `ref_from_bytes` reads the fields
-- one after the other from a slice of the struct's size, and `as_bytes` is the way back.
pub mod Lossless
pub mod Flags
mod Tests
use wjmmmdvm.Base.{ℕ, ◌+◌, ◌*◌, ◌/◌, ◌%◌, ◌^◌, bit_and, bit_or, Bool, if◌then◌else◌, ltb, ◌==◌}
use wjmmmdvm.Base.{List, [], ◌∷◌, ◌++◌, length, take, drop, get_or, replicate, Option, none, some}
use wjmmmdvm.Base.BitList.{same}

abbrev pub data_magic : List ℕ
data_magic = 0x44 ∷ 0x4d ∷ 0x52 ∷ 0x44 ∷ []

abbrev pub config_magic : List ℕ
config_magic = 0x44 ∷ 0x4d ∷ 0x52 ∷ 0x43 ∷ []

abbrev pub gps_magic : List ℕ
gps_magic = 0x44 ∷ 0x4d ∷ 0x52 ∷ 0x47 ∷ []

abbrev pub alias_magic : List ℕ
alias_magic = 0x44 ∷ 0x4d ∷ 0x52 ∷ 0x41 ∷ []

pub record DmrData : Type 0 where
  pub magic : List ℕ
  pub seq : ℕ
  pub src_id : List ℕ
  pub dst_id : List ℕ
  pub repeater_id : ℕ
  pub flags : ℕ
  pub stream_id : ℕ
  pub payload : List ℕ
  pub ber : ℕ
  pub rssi : ℕ

-- `DmrConfig`, `DmrGps` and `DmrAlias`: the magic, and bytes that are not decoded.
pub record Opaque : Type 0 where
  pub magic : List ℕ
  pub data_bytes : List ℕ

pub data Packet : Type 0 where
  data_packet : DmrData → Packet
  config_packet : Opaque → Packet
  gps_packet : Opaque → Packet
  alias_packet : Opaque → Packet
  unknown : List ℕ → ℕ → Packet

-- `zerocopy::big_endian::U32`
unfoldable pub u32_be : List ℕ → ℕ
u32_be b = get_or b 0 0 * 2 ^ 24 + get_or b 1 0 * 2 ^ 16 + get_or b 2 0 * 2 ^ 8 + get_or b 3 0

unfoldable pub u32_bytes : ℕ → List ℕ
u32_bytes n = n / 2 ^ 24 ∷ n / 2 ^ 16 % 256 ∷ n / 2 ^ 8 % 256 ∷ n % 256 ∷ []

unfoldable pub u24_be : List ℕ → ℕ
u24_be b = bit_or (bit_or (get_or b 0 0 * 2 ^ 16) (get_or b 1 0 * 2 ^ 8)) (get_or b 2 0)

unfoldable pub data_of_bytes : List ℕ → Option DmrData
data_of_bytes b =
    if length b == 55
    then some (record {
      magic = take 4 b;
      seq = get_or b 4 0;
      src_id = take 3 (drop 5 b);
      dst_id = take 3 (drop 8 b);
      repeater_id = u32_be (take 4 (drop 11 b));
      flags = get_or b 15 0;
      stream_id = u32_be (take 4 (drop 16 b));
      payload = take 33 (drop 20 b);
      ber = get_or b 53 0;
      rssi = get_or b 54 0;
    })
    else none

unfoldable pub data_as_bytes : DmrData → List ℕ
data_as_bytes p =
    p.magic
    ++ (p.seq ∷ p.src_id
        ++ (p.dst_id
            ++ (u32_bytes p.repeater_id
                ++ (p.flags ∷ u32_bytes p.stream_id ++ (p.payload ++ p.ber ∷ p.rssi ∷ [])))))

unfoldable pub opaque_of_bytes : ℕ → List ℕ → Option Opaque
opaque_of_bytes size b =
    if length b == size then some (record { magic = take 4 b; data_bytes = drop 4 b }) else none

abbrev pub src_id_u32 : DmrData → ℕ
src_id_u32 p = u24_be p.src_id

abbrev pub dst_id_u32 : DmrData → ℕ
dst_id_u32 p = u24_be p.dst_id

-- `DmrFlags`, a view of the flags byte.
unfoldable pub slot : ℕ → ℕ
slot f = bit_and (f / 2 ^ 7) 0x01 + 1

unfoldable pub is_private : ℕ → Bool
is_private f = bit_and (f / 2 ^ 6) 0x01 == 1

unfoldable pub data_sync : ℕ → Bool
data_sync f = bit_and (f / 2 ^ 5) 0x01 == 1

unfoldable pub voice_sync : ℕ → Bool
voice_sync f = bit_and (f / 2 ^ 4) 0x01 == 1

unfoldable pub frame_or_data_type : ℕ → ℕ
frame_or_data_type f = bit_and f 0x0f

-- `map(..).unwrap_or(..)`
abbrev pub or_unknown : {A : Type 0} → (A → Packet) → List ℕ → Option A → Packet
or_unknown packet bytes none = unknown (take 4 bytes) (length bytes)
or_unknown packet bytes (some a) = packet a

unfoldable pub parse : List ℕ → Packet
parse bytes =
    if ltb (length bytes) 4
    then unknown (replicate 4 0) (length bytes)
    else if same (take 4 bytes) data_magic
    then or_unknown data_packet bytes (data_of_bytes bytes)
    else if same (take 4 bytes) config_magic
    then or_unknown config_packet bytes (opaque_of_bytes 119 bytes)
    else if same (take 4 bytes) gps_magic
    then or_unknown gps_packet bytes (opaque_of_bytes 14 bytes)
    else if same (take 4 bytes) alias_magic
    then or_unknown alias_packet bytes (opaque_of_bytes 15 bytes)
    else unknown (take 4 bytes) (length bytes)
