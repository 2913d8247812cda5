-- ===== src/Sip/PcmWriter.antt =====
-- mmdvm_sip/src/pcm_writer.rs: one file of samples for each call. The file system and the clock are
-- parameters: each reading of the clock is an argument of the operation that makes it. What is only
-- logged, and the flush of a file that is closed, have no effect here.
pub mod Civil
pub mod Calls
pub mod Burst
pub mod Every
mod Tests
use wjmmmdvm.Base.{
  ℕ, zero, suc, ◌+◌, ◌-◌, ◌*◌, ◌/◌, ◌%◌, ◌^◌, Bool, true, false, not, ◌&&◌, if◌then◌else◌, ltb, leb,
  ◌==◌,
}
use wjmmmdvm.Base.{List, [], ◌∷◌, ◌++◌, Option, none, some, length, ◌≡◌}
use wjmmmdvm.Base.Result.{Result, ok, err, stuck}
use wjmmmdvm.Base.Io.{IoError}

pub record CallKey : Type 0 where
  pub stream_id : ℕ
  pub slot : ℕ

abbrev pub key_eq : CallKey → CallKey → Bool
key_eq a b = (a.stream_id == b.stream_id) && (a.slot == b.slot)

-- A date of the civil calendar, from days since 1970-01-01. Days come from `u64` seconds, so they
-- are not negative.
pub record Date : Type 0 where
  pub year : ℕ
  pub month : ℕ
  pub day : ℕ

unfoldable pub civil_from_days : ℕ → Date
civil_from_days days =
    let z = days + 719468 in
    let era = z / 146097 in
    let doe = z - era * 146097 in
    let yoe = (doe - doe / 1460 + doe / 36524 - doe / 146096) / 365 in
    let y = yoe + era * 400 in
    let doy = doe - (365 * yoe + yoe / 4 - yoe / 100) in
    let mp = (5 * doy + 2) / 153 in
    let d = doy - (153 * mp + 2) / 5 + 1 in
    let m = (if ltb mp 10 then mp + 3 else mp - 9) in
    record { year = y + (if leb m 2 then 1 else 0); month = m; day = d }

-- The parts of a file name: the time in seconds since 1970, as `utc_timestamp` takes it apart, and
-- the numbers of the call.
pub record FileName : Type 0 where
  pub date : Date
  pub hour : ℕ
  pub minute : ℕ
  pub second : ℕ
  pub src : ℕ
  pub dst : ℕ
  pub slot : ℕ

unfoldable pub path_for : ℕ → CallKey → ℕ → ℕ → FileName
unfolding civil_from_days
path_for secs key src dst =
    let secs_of_day = secs % 86400 in
    record {
      date = civil_from_days (secs / 86400);
      hour = secs_of_day / 3600;
      minute = secs_of_day / 60 % 60;
      second = secs_of_day % 60;
      src = src;
      dst = dst;
      slot = key.slot;
    }

pub record CallMeta : Type 0 where
  pub src : ℕ
  pub dst : ℕ
  pub path : FileName
  pub last_write : ℕ
  pub bytes_written : ℕ

abbrev pub Calls : Type 0
Calls = List (CallKey × CallMeta)

-- `File::create` and `write_all` on an open file.
pub record FileSystem : Type 1 where
  pub Disk : Type 0
  pub create : FileName → Disk → Result IoError Disk
  pub append : FileName → List ℕ → Disk → Result IoError Disk

abbrev pub lookup : CallKey → Calls → Option CallMeta
lookup k [] = none
lookup k ((k', m) ∷ calls) = if key_eq k k' then some m else lookup k calls

abbrev pub update : CallKey → CallMeta → Calls → Calls
update k m [] = []
update k m ((k', m') ∷ calls) = if key_eq k k' then (k', m) ∷ calls else (k', m') ∷ update k m calls

-- `HashMap::remove`, of `close_call`.
abbrev pub close_call : CallKey → Calls → Calls
close_call k [] = []
close_call k ((k', m) ∷ calls) = if key_eq k k' then calls else (k', m) ∷ close_call k calls

unfoldable pub is_stale : ℕ → ℕ → CallMeta → Bool
is_stale idle_timeout now m = ltb idle_timeout (now - m.last_write)

-- The keys that `flush_idle` collects, and their closing.
unfoldable pub stale_keys : ℕ → ℕ → Calls → List CallKey
unfolding is_stale
stale_keys idle_timeout now [] = []
stale_keys idle_timeout now ((k, m) ∷ calls) =
    let rest = stale_keys idle_timeout now calls in
    if is_stale idle_timeout now m then k ∷ rest else rest

unfoldable pub close_keys : List CallKey → Calls → Calls
close_keys [] calls = calls
close_keys (k ∷ ks) calls = close_keys ks (close_call k calls)

unfoldable pub flush_idle : ℕ → ℕ → Calls → Calls
unfolding stale_keys close_keys
flush_idle idle_timeout now calls = close_keys (stale_keys idle_timeout now calls) calls

abbrev pub keys_of : Calls → List CallKey
keys_of [] = []
keys_of ((k, m) ∷ calls) = k ∷ keys_of calls

unfoldable pub close_all : Calls → Calls
unfolding close_keys
close_all calls = close_keys (keys_of calls) calls

-- Samples as little-endian `i16`s.
unfoldable pub samples_le : List ℕ → List ℕ
samples_le [] = []
samples_le (s ∷ samples) = s % 256 ∷ s / 256 ∷ samples_le samples

-- The times that one call of `handle_burst` reads.
pub record Times : Type 0 where
  pub flushed : ℕ
  pub unix_secs : ℕ
  pub opened : ℕ
  pub written : ℕ

module _ (fs : FileSystem) (idle_timeout : ℕ) where
  open fs use {Disk, create, append}

  -- The file of the call is opened on its first burst.
  unfoldable pub open_call : Times → CallKey → ℕ → ℕ → Calls → Disk → Result IoError (Calls × Disk)
  open_call t key src dst calls disk = elim (lookup key calls) [
    | some m ↦ ok (calls, disk)
    | none ↦
        let path = path_for t.unix_secs key src dst in
        elim (create path disk) [
          | ok disk' ↦ ok (
            (
              key,
              record {
                src = src;
                dst = dst;
                path = path;
                last_write = t.opened;
                bytes_written = 0;
              },
            )
                ∷ calls,
            disk',
          )
          | err e ↦ err e
          | stuck ↦ stuck
        ]
  ]

  -- The bytes are written before the call's record is brought up to date.
  unfoldable pub write_burst :
      Times → CallKey → List ℕ → Calls → Disk → Result IoError (Unit {0}) × Calls × Disk
  write_burst t key samples calls disk = elim (lookup key calls) [
    | none ↦ (stuck, calls, disk)
    | some m ↦
        let bytes = samples_le samples in
        elim (append m.path bytes disk) [
          | ok disk' ↦
              let m' : CallMeta = record m {
                last_write = t.written;
                bytes_written = m.bytes_written + length bytes;
              } in
              (ok tt, update key m' calls, disk')
          | err e ↦ (err e, calls, disk)
          | stuck ↦ (stuck, calls, disk)
        ]
  ]

  unfoldable pub handle_burst :
      Times → CallKey → ℕ → ℕ → List ℕ → Calls → Disk → Result IoError (Unit {0}) × Calls × Disk
  handle_burst t key src dst samples calls disk =
      let live = flush_idle idle_timeout t.flushed calls in
      elim (open_call t key src dst live disk) [
        | ok r ↦ write_burst t key samples r.0 r.1
        | err e ↦ (err e, live, disk)
        | stuck ↦ (stuck, live, disk)
      ]
