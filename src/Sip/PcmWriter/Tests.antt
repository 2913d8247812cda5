-- ===== src/Sip/PcmWriter/Tests.antt =====
-- The writer's theorems at concrete calls.
use wjmmmdvm.Base.{ℕ, ◌≡◌, refl, List, [], ◌∷◌, ◌++◌}
use wjmmmdvm.Base.Result.{ok}
use wjmmmdvm.Sip.PcmWriter.{
  CallKey, CallMeta, Calls, FileSystem, FileName, Times, Date, civil_from_days, lookup, update,
  flush_idle, handle_burst, path_for, is_stale, samples_le,
}
use wjmmmdvm.Sip.PcmWriter.Calls.{still_open, Unique, lookup-flush_idle}
use wjmmmdvm.Sip.PcmWriter.Burst.{Written, handle_burst-Written}
use wjmmmdvm.Sip.PcmWriter.Civil.Next.{date_after, civil_from_days_lem}

-- A disk that keeps all that is written, in order.
abbrev tape : FileSystem
tape = record {
  Disk = List ℕ;
  create = λ name disk. ok disk;
  append = λ name bytes disk. ok (disk ++ bytes);
}

abbrev key : ℕ → CallKey
key n = record { stream_id = n; slot = 1 }

abbrev meta : ℕ → ℕ → CallMeta
meta last bytes = record {
  src = 1;
  dst = 2;
  path = path_for 0 (key 7) 1 2;
  last_write = last;
  bytes_written = bytes;
}

-- A call that is idle for too long, and one that is not.
abbrev calls : Calls
calls = (key 7, meta 100 960) ∷ (key 8, meta 2000 320) ∷ []

calls-Unique : Unique calls
calls-Unique = (refl, (refl, tt))

lookup-flush_idle_example :
    lookup (key 7) (flush_idle 1000 2500 calls) ≡ still_open 1000 2500 (lookup (key 7) calls)
lookup-flush_idle_example = lookup-flush_idle 1000 2500 (key 7) calls calls-Unique

abbrev times : Times
times = record { flushed = 2500; unix_secs = 86400; opened = 2501; written = 2502 }

after : Calls
after = (key 8, record (meta 2000 320) { last_write = 2502; bytes_written = 324 }) ∷ []

burst_done :
    handle_burst tape 1000 times (key 8) 1 2 (5 ∷ 6 ∷ []) calls []
    ≡ (ok tt, after, 5 ∷ 0 ∷ 6 ∷ 0 ∷ [])
unfolding handle_burst after wjmmmdvm.Sip.PcmWriter.open_call flush_idle
    wjmmmdvm.Sip.PcmWriter.write_burst samples_le
burst_done = refl

handle_burst-Written_example : Written 1000 times (key 8) (5 ∷ 6 ∷ []) calls after
handle_burst-Written_example =
    handle_burst-Written tape 1000 times (key 8) (5 ∷ 6 ∷ []) 1 2 calls after []
      (5 ∷ 0 ∷ 6 ∷ 0 ∷ []) calls-Unique burst_done

civil_from_days_lem_example : civil_from_days 789 ≡ date_after 789
civil_from_days_lem_example = civil_from_days_lem 789
