-- ===== src/Ambed/Server/Tests.antt =====
-- Runs of the server, and its theorems at a concrete codec and connection.
use wjmmmdvm.Base.{
  length, ℕ, zero, suc, ◌≡◌, ◌≢◌, refl, sym, arith, List, [], ◌∷◌, ◌++◌, replicate, All, Option,
  none, some,
}
use mathlib.Core.Path.{subst}
use wjmmmdvm.Base.Result.{ok, stuck, OnOk}
use wjmmmdvm.Base.Io.{Wire, unexpected_eof}
use wjmmmdvm.Base.Memory.{memory, memory-IsWritable}
use wjmmmdvm.Ambed.Protocol.{Packet, control, channel, speech, to_bytes, div_ceil}
use wjmmmdvm.Ambed.Protocol.Amb8.{IsAmb8}
use wjmmmdvm.Ambed.Protocol.Decode.{decode, short}
use wjmmmdvm.Ambed.Protocol.RoundTrip.{IsWire}
use wjmmmdvm.Ambed.Codec.Contract.{IsPcm}
use wjmmmdvm.Ambed.Server.{Codec, Worker, running, dead, handle_connection}
use wjmmmdvm.Ambed.Server.Session.{respond, session, wire_of}
use wjmmmdvm.Ambed.Server.Session.Serve.{Served, handle_connection_serves}
use wjmmmdvm.Ambed.Codec.{Memory}
use wjmmmdvm.Ambed.Codec.Sample.{firmware, zeros}
use wjmmmdvm.Ambed.Server.CodecWorker.{md380_codec}
use wjmmmdvm.Ambed.Server.Session.Answers.{expected_all, handle_connection_answers}
use wjmmmdvm.Ambed.Server.Session.Ends.{handle_connection_ends}
use wjmmmdvm.Ambed.Server.Session.Replies.{AreReplies, session-AreReplies}

abbrev silence : List ℕ
silence = replicate 160 0

abbrev empty_frame : List ℕ
empty_frame = replicate 8 0

-- A codec that counts its calls, and panics at the third.
abbrev once_more : ℕ → List ℕ → Option (List ℕ × ℕ)
once_more zero r = some (r, 1)
once_more (suc zero) r = some (r, 2)
once_more (suc (suc n)) r = none

some-once_more : (n n' : ℕ) (r a : List ℕ) → once_more n r ≡ some (a, n') → a ≡ r
some-once_more zero n' r a h = cc
some-once_more (suc zero) n' r a h = cc
some-once_more (suc (suc n)) n' r a h = cc

empty-IsAmb8 : IsAmb8 empty_frame
empty-IsAmb8 = record { size = refl; bytes = omega arith; status = refl; last = omega arith }

silence-IsPcm : IsPcm silence
silence-IsPcm = record { size = refl; halves = omega arith }

abbrev counting : Codec
counting = record {
  State = ℕ;
  encode = λ pcm n. once_more n empty_frame;
  decode = λ a n. once_more n silence;
  encode-IsAmb8 =
      λ pcm n n' a e. subst IsAmb8 (sym (some-once_more n n' empty_frame a e)) empty-IsAmb8;
  decode-IsPcm =
      λ a n n' pcm e. subst IsPcm (sym (some-once_more n n' silence pcm e)) silence-IsPcm;
}

abbrev voice : Packet
voice = channel 49 (replicate 7 0xff)

-- A reset, two frames of voice, and a packet that is cut off.
abbrev packets : List Packet
packets = control (0x33 ∷ []) ∷ voice ∷ voice ∷ []

abbrev cut_off : List ℕ
cut_off = 0x61 ∷ 0 ∷ 10 ∷ []

abbrev line : Wire
line = record { pending = wire_of packets ++ cut_off; ending = unexpected_eof; sent = [] }

session_runs :
    session counting packets (running 0)
    ≡ (ok (control (0x39 ∷ []) ∷ speech silence ∷ speech silence ∷ []), running 2)
unfolding session respond wjmmmdvm.Ambed.Server.control_response
session_runs = refl

packets-IsWire : All IsWire packets
unfolding div_ceil
packets-IsWire = omega arith

cut_off-short : decode cut_off ≡ short
unfolding decode
cut_off-short = refl

handle_connection_serves_example :
    Served memory memory-IsWritable counting line
      (session counting packets (running 0))
      (handle_connection memory counting 1000 line (running 0))
handle_connection_serves_example =
    handle_connection_serves memory memory-IsWritable counting packets cut_off 1000 line (running 0)
      packets-IsWire cut_off-short refl refl (unfold wire_of in unfold to_bytes in omega arith)

replies_fit : OnOk (AreReplies counting 3) (session counting packets (running 0)).0
replies_fit = session-AreReplies counting packets (running 0)

abbrev garbage : Wire
garbage = record { pending = 0x61 ∷ 0 ∷ 1 ∷ 7 ∷ 9 ∷ []; ending = unexpected_eof; sent = [] }

handle_connection_ends_example : (handle_connection memory counting 6 garbage (running 0)).0 ≢ stuck
handle_connection_ends_example =
    handle_connection_ends memory memory-IsWritable counting 6 garbage (running 0) (omega arith)
      (omega arith)

handle_connection_answers_example :
    (replies : List Packet) × (c' : Wire) × (ram' : Memory) × (handle_connection memory
        (md380_codec firmware)
        1000
        line
        (running zeros)
      ≡ (ok c', running ram'))
    × (c'.sent ≡ [] ++ wire_of replies)
    × All IsWire replies
    × (length replies ≡ expected_all packets)
handle_connection_answers_example =
    handle_connection_answers firmware memory memory-IsWritable packets cut_off 1000 line zeros
      packets-IsWire cut_off-short refl refl (unfold wire_of in unfold to_bytes in omega arith)
