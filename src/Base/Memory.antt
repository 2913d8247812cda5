-- ===== src/Base/Memory.antt =====
-- A connection held in memory, which meets the assumptions of `Io`: tests run over it.
use wjmmmdvm.Base.Tests.{if◌then◌else◌, leb}
use wjmmmdvm.Base.Lists.{length, take, drop}
use wjmmmdvm.Base.Result.{Result, ok, err}
use wjmmmdvm.Base.Io.{IoError, Wire, Connection, IsWritable}
use Prim.Native.Nat.{ℕ, ◌≤◌, ◌<◌}
use mathlib.Core.Path.{◌≡◌, refl}
use mathlib.Core.List.{List, ◌++◌}
use native.Mathlib.Omega.{arith}

abbrev pub read_memory : ℕ → Wire → Result IoError (List ℕ × Wire)
read_memory n w =
    if leb n (length w.pending)
    then ok (take n w.pending, record w { pending = drop n w.pending })
    else err w.ending

abbrev pub write_memory : List ℕ → Wire → Result IoError Wire
write_memory bs w = ok (record w { sent = w.sent ++ bs })

abbrev pub flush_memory : Wire → Result IoError Wire
flush_memory w = ok w

pub read_memory_full :
    (n : ℕ) (w : Wire)
    → n ≤ length w.pending
    → (w' : Wire) × (read_memory n w ≡ ok (take n w.pending, w'))
      × (w' ≡ record w { pending = drop n w.pending })
read_memory_full n w h = (record w { pending = drop n w.pending }, ground arith, refl)

pub read_memory_short : (n : ℕ) (w : Wire) → length w.pending < n → read_memory n w ≡ err w.ending
read_memory_short n w h = ground arith

pub write_memory_effect :
    (bs : List ℕ) (w w' : Wire) → write_memory bs w ≡ ok w' → w' ≡ record w { sent = w.sent ++ bs }
write_memory_effect bs w w' h = cc

pub flush_memory_effect : (w w' : Wire) → flush_memory w ≡ ok w' → w' ≡ w
flush_memory_effect w w' h = cc

abbrev pub memory : Connection
memory = record {
  Conn = Wire;
  read_exact = read_memory;
  write_all = write_memory;
  flush = flush_memory;
  view = λ w. w;
  read_full = read_memory_full;
  read_short = read_memory_short;
  write_effect = write_memory_effect;
  flush_effect = flush_memory_effect;
}

pub memory-IsWritable : IsWritable memory
memory-IsWritable = record {
  writes = λ bs w. (record w { sent = w.sent ++ bs }, refl);
  flushes = λ w. (w, refl);
}
