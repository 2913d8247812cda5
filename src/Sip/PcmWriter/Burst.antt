-- ===== src/Sip/PcmWriter/Burst.antt =====
-- `handle_burst` of mmdvm_sip/src/pcm_writer.rs, on the open calls.
use wjmmmdvm.Base.{
  ℕ, ◌+◌, ◌*◌, ◌≡◌, refl, sym, ap, ◌∙◌, arith, false, Bool-cases, inl, inr, if◌then◌else◌,
}
use wjmmmdvm.Base.{List, [], ◌∷◌, length, Option, none, some, Option-cases}
use wjmmmdvm.Base.Result.{Result, ok, err, stuck}
use wjmmmdvm.Base.Io.{IoError}
use wjmmmdvm.Sip.PcmWriter.{
  CallKey, CallMeta, Calls, FileSystem, Times, key_eq, lookup, update, flush_idle, open_call,
  write_burst, handle_burst, samples_le, path_for,
}
use wjmmmdvm.Sip.PcmWriter.Calls.{
  still_open, Unique, lookup-flush_idle, lookup-update_self, key_eq_refl, key_eq_trans, key_eq_sym,
}

lookup-update_ne :
    (k k' : CallKey) (m : CallMeta) (calls : Calls)
    → key_eq k k' ≡ false
    → lookup k (update k' m calls) ≡ lookup k calls
lookup-update_ne k k' m [] h = refl
lookup-update_ne k k' m ((k₁, x) ∷ calls) h = elim (Bool-cases (key_eq k' k₁)) [
  | inl here ↦
      let apart : key_eq k k₁ ≡ false =
        key_eq_sym k k₁ ∙ key_eq_trans k' k₁ k here ∙ key_eq_sym k' k ∙ h in
      rw (here, apart) refl
  | inr past ↦
      rw past (ap (λ r. if key_eq k k₁ then some x else r) (lookup-update_ne k k' m calls h))
]

pub length-samples_le : (samples : List ℕ) → length (samples_le samples) ≡ 2 * length samples
unfolding samples_le
length-samples_le [] = refl
length-samples_le (s ∷ samples) = omega (arith, length-samples_le samples)

-- The bytes that a call has so far.
abbrev pub so_far : Option CallMeta → ℕ
so_far none = 0
so_far (some m) = m.bytes_written

-- What a successful burst leaves: its call is open with the time and the count of the burst, and
-- every other call is as the idle limit leaves it.
pub record Written (idle_timeout : ℕ) (t : Times) (key : CallKey) (samples : List ℕ)
    (calls calls' : Calls) : Type 0 where
  pub meta : CallMeta
  pub is_open : lookup key calls' ≡ some meta
  pub time : meta.last_write ≡ t.written
  pub count :
      meta.bytes_written
      ≡ so_far (still_open idle_timeout t.flushed (lookup key calls)) + 2 * length samples
  pub others :
      (k : CallKey)
      → key_eq k key ≡ false
      → lookup k calls' ≡ still_open idle_timeout t.flushed (lookup k calls)

module _ {D : Type 0} where
  calls_of :
      {a b : Result IoError (Unit {0})} {x y : Calls} {d d' : D}
      → ◌≡◌ {A = Result IoError (Unit {0}) × Calls × D} (a, x, d) (b, y, d')
      → x ≡ y
  calls_of h = cc

  err_ne_ok :
      {e : IoError} {x y : Calls} {d d' : D}
      → ◌≡◌ {A = Result IoError (Unit {0}) × Calls × D} (err e, x, d) (ok tt, y, d')
      → ⊥
  err_ne_ok h = cc

  stuck_ne_ok :
      {x y : Calls} {d d' : D}
      → ◌≡◌ {A = Result IoError (Unit {0}) × Calls × D} (stuck, x, d) (ok tt, y, d')
      → ⊥
  stuck_ne_ok h = cc

module _ (fs : FileSystem) (idle_timeout : ℕ) (t : Times) (key : CallKey) (samples : List ℕ) where
  open fs use {Disk, create, append}

  abbrev Done : Type 0
  Done = Result IoError (Unit {0}) × Calls × Disk

  updated : CallMeta → CallMeta
  updated m = record m {
    last_write = t.written;
    bytes_written = m.bytes_written + length (samples_le samples);
  }

  write_cases :
      (m : CallMeta) (calls calls' : Calls) (disk disk' : Disk) (r : Result IoError Disk)
      → lookup key calls ≡ some m
      → append m.path (samples_le samples) disk ≡ r
      → write_burst fs idle_timeout t key samples calls disk ≡ (ok tt, calls', disk')
      → calls' ≡ update key (updated m) calls
  unfolding write_burst updated
  write_cases m calls calls' disk disk' (ok d) e a h = sym (calls_of (rw (write_burst, e, a) at h))
  write_cases m calls calls' disk disk' (err x) e a h =
      absurd (err_ne_ok (rw (write_burst, e, a) at h))
  write_cases m calls calls' disk disk' stuck e a h =
      absurd (stuck_ne_ok (rw (write_burst, e, a) at h))

  -- From the calls that are still open, with the call's own record there.
  written :
      (m : CallMeta) (before live calls' : Calls) (disk disk' : Disk)
      → lookup key live ≡ some m
      → m.bytes_written ≡ so_far (still_open idle_timeout t.flushed (lookup key before))
      → ((k : CallKey)
          → key_eq k key ≡ false
          → lookup k live ≡ still_open idle_timeout t.flushed (lookup k before))
      → write_burst fs idle_timeout t key samples live disk ≡ (ok tt, calls', disk')
      → Written idle_timeout t key samples before calls'
  unfolding updated
  written m before live calls' disk disk' e b o h =
      let w =
        write_cases m live calls' disk disk' (append m.path (samples_le samples) disk) e refl h in
      record {
        meta = updated m;
        is_open = rw w (lookup-update_self key m (updated m) live e);
        time = refl;
        count = omega (arith, length-samples_le samples, b);
        others = λ k apart. rw w (lookup-update_ne k key (updated m) live apart ∙ o k apart);
      }

  fresh : ℕ → ℕ → CallMeta
  fresh src dst = record {
    src = src;
    dst = dst;
    path = path_for t.unix_secs key src dst;
    last_write = t.opened;
    bytes_written = 0;
  }

  old_call :
      (m : CallMeta) (src dst : ℕ) (calls calls' : Calls) (disk disk' : Disk)
      → Unique calls
      → lookup key (flush_idle idle_timeout t.flushed calls) ≡ some m
      → handle_burst fs idle_timeout t key src dst samples calls disk ≡ (ok tt, calls', disk')
      → Written idle_timeout t key samples calls calls'
  unfolding handle_burst open_call
  old_call m src dst calls calls' disk disk' u there h =
      written m calls (flush_idle idle_timeout t.flushed calls) calls' disk disk' there
        (ap so_far (sym (sym (lookup-flush_idle idle_timeout t.flushed key calls u) ∙ there)))
        (λ k apart. lookup-flush_idle idle_timeout t.flushed k calls u)
        (rw (handle_burst, open_call, there) at h)

  new_call :
      (src dst : ℕ) (calls calls' : Calls) (disk disk' : Disk) (r : Result IoError Disk)
      → Unique calls
      → lookup key (flush_idle idle_timeout t.flushed calls) ≡ none
      → create (path_for t.unix_secs key src dst) disk ≡ r
      → handle_burst fs idle_timeout t key src dst samples calls disk ≡ (ok tt, calls', disk')
      → Written idle_timeout t key samples calls calls'
  unfolding handle_burst open_call fresh
  new_call src dst calls calls' disk disk' (ok d) u absent c h =
      written (fresh src dst) calls ((key, fresh src dst) ∷ flush_idle idle_timeout t.flushed calls)
        calls' d disk' (rw (key_eq_refl key) refl)
        (ap so_far (sym (sym (lookup-flush_idle idle_timeout t.flushed key calls u) ∙ absent)))
        (λ k apart. rw apart (lookup-flush_idle idle_timeout t.flushed k calls u))
        (rw (handle_burst, open_call, absent, c) at h)
  new_call src dst calls calls' disk disk' (err x) u absent c h =
      absurd (err_ne_ok (rw (handle_burst, open_call, absent, c) at h))
  new_call src dst calls calls' disk disk' stuck u absent c h =
      absurd (stuck_ne_ok (rw (handle_burst, open_call, absent, c) at h))

  -- Where no two open calls have the same key and `handle_burst` succeeds, the call of the burst
  -- is open with the time of the write as its last and with two bytes for each sample more than
  -- it had, counting from zero where it was not open or idle for longer than the limit; and each
  -- other call is as before, or closed where it was idle for longer than the limit.
  pub handle_burst-Written :
      (src dst : ℕ) (calls calls' : Calls) (disk disk' : Disk)
      → Unique calls
      → handle_burst fs idle_timeout t key src dst samples calls disk ≡ (ok tt, calls', disk')
      → Written idle_timeout t key samples calls calls'
  handle_burst-Written src dst calls calls' disk disk' u h =
      elim (Option-cases (lookup key (flush_idle idle_timeout t.flushed calls))) [
        | inl absent ↦
            new_call src dst calls calls' disk disk'
              (create (path_for t.unix_secs key src dst) disk) u absent refl h
        | inr (m, there) ↦ old_call m src dst calls calls' disk disk' u there h
      ]
