-- ===== src/Ambed/Server/CodecWorker.antt =====
-- `spawn_codec_worker` of md380_emu_ambed/src/server.rs: the worker owns the one `Md380Codec`, whose
-- state is the firmware's RAM. In a build for ARM the codec does not panic.
use wjmmmdvm.Base.{ℕ, List, Option, some, ◌≡◌}
use mathlib.Core.Path.{subst}
use wjmmmdvm.Ambed.Protocol.Amb8.{IsAmb8}
use wjmmmdvm.Ambed.Codec.{Memory, Firmware, decode, encode}
use wjmmmdvm.Ambed.Codec.Contract.{IsPcm, encode-IsAmb8, decode-IsPcm}
use wjmmmdvm.Ambed.Server.{Codec}

pub some_first :
    {r : List ℕ × Memory} {a : List ℕ} {m : Memory}
    → ◌≡◌ {A = Option (List ℕ × Memory)} (some r) (some (a, m))
    → r.0 ≡ a
some_first h = cc

abbrev pub md380_codec : Firmware → Codec
md380_codec fw = record {
  State = Memory;
  encode = λ pcm ram. some (encode fw pcm ram);
  decode = λ a ram. some (decode fw a ram);
  encode-IsAmb8 = λ pcm ram ram' a e. subst IsAmb8 (some_first e) (encode-IsAmb8 fw pcm ram);
  decode-IsPcm = λ a ram ram' pcm e. subst IsPcm (some_first e) (decode-IsPcm fw a ram);
}
