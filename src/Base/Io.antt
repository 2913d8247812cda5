-- ===== src/Base/Io.antt =====
-- A byte stream connection, as tokio's `AsyncReadExt` and `AsyncWriteExt` offer it. The runtime is
-- not part of the repository, so the connection is a parameter with its documented behaviour.
use wjmmmdvm.Base.Lists.{length, take, drop}
use wjmmmdvm.Base.Result.{Result, ok, err}
use Prim.Native.Nat.{ℕ, ◌≤◌, ◌<◌}
use mathlib.Core.Path.{◌≡◌}
use mathlib.Core.List.{List, ◌++◌}

-- `io::Error` by its kind, of which the code only tells `UnexpectedEof` apart.
pub data IoError : Type 0 where
  unexpected_eof : IoError
  other : ℕ → IoError

-- What is to be known of a connection: the bytes that the peer still delivers, the error that a
-- read past them meets, and the bytes written so far.
pub record Wire : Type 0 where
  pub pending : List ℕ
  pub ending : IoError
  pub sent : List ℕ

-- `read_exact` fills its buffer or fails, and `write_all` writes all its bytes or fails.
pub record Connection : Type 1 where
  pub Conn : Type 0
  pub read_exact : ℕ → Conn → Result IoError (List ℕ × Conn)
  pub write_all : List ℕ → Conn → Result IoError Conn
  pub flush : Conn → Result IoError Conn
  pub view : Conn → Wire
  pub read_full :
      (n : ℕ) (c : Conn)
      → n ≤ length (view c).pending
      → (c' : Conn) × (read_exact n c ≡ ok (take n (view c).pending, c'))
        × (view c' ≡ record (view c) { pending = drop n (view c).pending })
  pub read_short :
      (n : ℕ) (c : Conn) → length (view c).pending < n → read_exact n c ≡ err (view c).ending
  pub write_effect :
      (bs : List ℕ) (c c' : Conn)
      → write_all bs c ≡ ok c'
      → view c' ≡ record (view c) { sent = (view c).sent ++ bs }
  pub flush_effect : (c c' : Conn) → flush c ≡ ok c' → view c' ≡ view c

-- The peer takes every byte that is written.
pub record IsWritable (io : Connection) : Type 0 where
  pub writes : (bs : List ℕ) (c : io.Conn) → (c' : io.Conn) × (io.write_all bs c ≡ ok c')
  pub flushes : (c : io.Conn) → (c' : io.Conn) × (io.flush c ≡ ok c')
