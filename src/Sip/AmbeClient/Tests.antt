-- ===== src/Sip/AmbeClient/Tests.antt =====
-- The client's theorems at concrete inputs.
use wjmmmdvm.Ambed.Server.{control_response, Worker}
use wjmmmdvm.Sip.AmbeClient.{handshake}
use wjmmmdvm.Sip.AmbeClient.Handshake.{greetings, answers, handshake_with_daemon}
use wjmmmdvm.Base.{ℕ, ◌+◌, ◌≡◌, refl, arith, List, [], ◌∷◌, ◌++◌, replicate, Option, some}
use wjmmmdvm.Base.Result.{ok}
use wjmmmdvm.Base.Io.{Wire, unexpected_eof}
use wjmmmdvm.Base.Memory.{memory, memory-IsWritable}
use wjmmmdvm.Ambed.Protocol.{to_bytes, samples_be}
use wjmmmdvm.Ambed.Protocol as Protocol
use wjmmmdvm.Ambed.Protocol.Amb8.{IsAmb8}
use mathlib.Core.Path.{subst}
use wjmmmdvm.Ambed.Codec.Contract.{IsPcm}
use wjmmmdvm.Ambed.Server.{Codec, running}
use wjmmmdvm.Ambed.Server.Session.{session, respond, wire_of, amb8_of}
use wjmmmdvm.Sip.AmbeClient.{recv_packet, decode}
use wjmmmdvm.Sip.AmbeClient.Same.{Same, recv_packet-Same}
use wjmmmdvm.Sip.AmbeClient.Daemon.{request_packet, decode-speech, decode_from_daemon}

abbrev silence : List ℕ
silence = replicate 160 0

abbrev ambe : List ℕ
ambe = 0xab ∷ replicate 6 0

silence-IsPcm : IsPcm silence
silence-IsPcm = record { size = refl; halves = omega arith }

abbrev line : Wire
line = record {
  pending = to_bytes (Protocol.speech silence) ++ 9 ∷ [];
  ending = unexpected_eof;
  sent = [];
}

decode-speech_example :
    (c' : Wire) × (decode memory 400 ambe line ≡ ok (silence, c'))
    × (c' ≡ record line { pending = 9 ∷ []; sent = to_bytes (request_packet ambe) })
decode-speech_example =
    decode-speech memory memory-IsWritable ambe silence (9 ∷ []) 400 line silence-IsPcm refl
      (unfold to_bytes in omega arith)

recv_packet-Same_example : Same (Protocol.read_packet memory 400 line) (recv_packet memory 400 line)
recv_packet-Same_example = recv_packet-Same memory 400 line

abbrev empty_frame : List ℕ
empty_frame = replicate 8 0

empty_frame-IsAmb8 : IsAmb8 empty_frame
empty_frame-IsAmb8 = record { size = refl; bytes = omega arith; status = refl; last = omega arith }

first_of :
    {r a : List ℕ} {n m : ℕ} → ◌≡◌ {A = Option (List ℕ × ℕ)} (some (r, n)) (some (a, m)) → r ≡ a
first_of h = cc

-- A codec that counts its calls.
abbrev counting : Codec
counting = record {
  State = ℕ;
  encode = λ pcm n. some (empty_frame, n + 1);
  decode = λ a n. some (silence, n + 1);
  encode-IsAmb8 = λ pcm n n' a e. subst IsAmb8 (first_of e) empty_frame-IsAmb8;
  decode-IsPcm = λ a n n' pcm e. subst IsPcm (first_of e) silence-IsPcm;
}

session_runs :
    session counting (request_packet ambe ∷ []) (running 4)
    ≡ (ok (Protocol.speech silence ∷ []), running 5)
unfolding session respond
session_runs = refl

abbrev answered : Wire
answered = record {
  pending = wire_of (Protocol.speech silence ∷ []) ++ 9 ∷ [];
  ending = unexpected_eof;
  sent = [];
}

decode_from_daemon_example :
    (pcm : List ℕ) × (s' : ℕ) × (c' : Wire) × (counting.decode (amb8_of ambe) 4 ≡ some (pcm, s'))
    × (running 5 ≡ running s')
    × (decode memory 400 ambe answered ≡ ok (pcm, c'))
    × (c' ≡ record answered { pending = 9 ∷ []; sent = to_bytes (request_packet ambe) })
decode_from_daemon_example =
    decode_from_daemon memory memory-IsWritable counting ambe (9 ∷ []) 4
      (Protocol.speech silence ∷ []) (running 5) 400 answered session_runs refl
      (unfold wire_of in unfold to_bytes in omega arith)

greeted : session counting greetings (running 4) ≡ (ok answers, running 4)
unfolding session respond control_response
greeted = refl

abbrev welcome : Wire
welcome = record { pending = wire_of answers ++ 9 ∷ []; ending = unexpected_eof; sent = [] }

handshake_with_daemon_example :
    (◌≡◌ {A = Worker ℕ} (running 4) (running 4))
    × ((c' : Wire) × (handshake memory 400 welcome ≡ ok c')
        × (c' ≡ record welcome { pending = 9 ∷ []; sent = wire_of greetings }))
handshake_with_daemon_example =
    handshake_with_daemon memory memory-IsWritable counting (running 4) (running 4) answers (9 ∷ [])
      400 welcome greeted refl (unfold wire_of in unfold to_bytes in omega arith)
