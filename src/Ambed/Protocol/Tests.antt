-- ===== src/Ambed/Protocol/Tests.antt =====
-- Runs of the packet codec, and its theorems at concrete inputs.
use wjmmmdvm.Base.{ℕ, ◌≡◌, ◌≢◌, refl, arith, List, [], ◌∷◌, ◌++◌, take}
use wjmmmdvm.Base.Result.{ok, err, stuck}
use wjmmmdvm.Base.Io.{Wire, unexpected_eof}
use wjmmmdvm.Base.Memory.{memory}
use wjmmmdvm.Ambed.Protocol.{Packet, channel, malformed, to_bytes, read_packet}
use wjmmmdvm.Ambed.Protocol.{build_channel_from_amb8, amb8_from_channel, div_ceil}
use wjmmmdvm.Ambed.Protocol.Decode.{decode, Agrees, read_packet_refines}
use wjmmmdvm.Ambed.Protocol.RoundTrip.{IsWire, read_packet-to_bytes}
use wjmmmdvm.Ambed.Protocol.Sound.{Took, read_packet_sound}
use wjmmmdvm.Ambed.Protocol.Amb8.{IsAmb8, amb8_from_channel-build, build-amb8_from_channel}

abbrev frame : List ℕ
frame = 0x00 ∷ 0xab ∷ 0xcd ∷ 0xef ∷ 0x12 ∷ 0x34 ∷ 0x56 ∷ 0x01 ∷ []

abbrev bits : List ℕ
bits = 0xab ∷ 0xcd ∷ 0xef ∷ 0x12 ∷ 0x34 ∷ 0x56 ∷ 0x80 ∷ []

-- Four stray bytes before a Channel packet, and one byte behind it.
abbrev stray : List ℕ
stray = 0xde ∷ 0xad ∷ 0xbe ∷ 0xef ∷ []

abbrev channel_bytes : List ℕ
channel_bytes = 0x61 ∷ 0 ∷ 10 ∷ 1 ∷ 1 ∷ 49 ∷ bits

abbrev line : Wire
line = record { pending = stray ++ (channel_bytes ++ 7 ∷ []); ending = unexpected_eof; sent = [] }

to_bytes-channel : to_bytes (channel 49 bits) ≡ channel_bytes
unfolding to_bytes
to_bytes-channel = refl

amb8_packs : build_channel_from_amb8 frame ≡ channel 49 bits
unfolding build_channel_from_amb8
amb8_packs = refl

-- A start byte in the stray bytes is taken for a packet: the lengths after it are read as such.
zero_length :
    read_packet memory 9 (record line { pending = 0x61 ∷ 0 ∷ 0 ∷ 1 ∷ [] })
    ≡ err (malformed "zero length")
unfolding read_packet
zero_length = refl

read_packet_refines_example : Agrees memory line (decode line.pending) (read_packet memory 30 line)
read_packet_refines_example = read_packet_refines memory 30 line (omega arith)

read_packet-to_bytes_example :
    (c : Wire) × (read_packet memory 30 line ≡ ok (channel 49 bits, c))
    × (c ≡ record line { pending = 7 ∷ [] })
unfolding to_bytes
read_packet-to_bytes_example =
    read_packet-to_bytes memory stray (7 ∷ []) (channel 49 bits) 30 line (omega arith)
      (unfold div_ceil in omega arith) refl (omega arith)

read_packet_sound_example :
    (read_packet memory 30 line ≢ stuck)
    × ((p : Packet) (c' : Wire) → read_packet memory 30 line ≡ ok (p, c') → Took memory line p c')
read_packet_sound_example = read_packet_sound memory 30 line (omega arith) (omega arith)

frame-IsAmb8 : IsAmb8 frame
frame-IsAmb8 = omega arith

amb8_from_channel-build_example :
    (d : List ℕ) × (build_channel_from_amb8 frame ≡ channel 49 d)
    × IsWire (channel 49 d)
    × (amb8_from_channel 49 d ≡ ok frame)
amb8_from_channel-build_example = amb8_from_channel-build frame frame-IsAmb8

build-amb8_from_channel_example :
    (a : List ℕ) × (amb8_from_channel 49 bits ≡ ok a)
    × IsAmb8 a
    × (build_channel_from_amb8 a ≡ channel 49 (take 6 bits ++ 0x80 ∷ []))
build-amb8_from_channel_example = build-amb8_from_channel bits refl (omega arith)
