-- ===== src/Sip/PcmWriter/Every.antt =====
-- What `handle_burst` of mmdvm_sip/src/pcm_writer.rs keeps of the open calls, on every path.
use wjmmmdvm.Base.{ℕ, ◌+◌, ◌≡◌, refl, sym, ap₂, arith, true, Bool-cases, inl, inr}
use wjmmmdvm.Base.{List, [], ◌∷◌, length, Option, none, some, Option-cases}
use mathlib.Core.Path.{subst}
use wjmmmdvm.Base.Result.{Result, ok, err, stuck, Returns}
use wjmmmdvm.Base.Io.{IoError}
use wjmmmdvm.Sip.PcmWriter.{
  CallKey, CallMeta, Calls, FileName, FileSystem, Times, key_eq, lookup, update, close_call,
  close_keys, stale_keys, flush_idle, open_call, write_burst, handle_burst, samples_le, path_for,
}
use wjmmmdvm.Sip.PcmWriter.Calls.{Unique, close_call-Unique, key_eq_refl}

pub key_eq-≡ : (a b : CallKey) → key_eq a b ≡ true → a ≡ b
key_eq-≡ a b h = ap₂ (λ s l. record { stream_id = s; slot = l }) (ground arith) (ground arith)

lookup-update_absent :
    (k k' : CallKey) (m : CallMeta) (calls : Calls)
    → lookup k calls ≡ none
    → lookup k (update k' m calls) ≡ none
lookup-update_absent k k' m [] h = h
lookup-update_absent k k' m ((k₁, m₁) ∷ calls) h = elim (Bool-cases (key_eq k k₁)) [
  | inl here ↦ absurd (some_ne_none (rw here at h))
  | inr past ↦
      let rest = rw past at h in
      elim (Bool-cases (key_eq k' k₁)) [
        | inl t ↦ rw (t, past) rest
        | inr f ↦ rw (f, past) (lookup-update_absent k k' m calls rest)
      ]
]
  where
    some_ne_none : {m : CallMeta} → ◌≡◌ {A = Option CallMeta} (some m) none → ⊥
    some_ne_none e = cc

update-Unique :
    (k : CallKey) (m : CallMeta) (calls : Calls) → Unique calls → Unique (update k m calls)
update-Unique k m [] u = tt
update-Unique k m ((k₁, m₁) ∷ calls) (fresh, u) = elim (Bool-cases (key_eq k k₁)) [
  | inl t ↦ rw t (fresh, u)
  | inr f ↦ rw f (lookup-update_absent k₁ k m calls fresh, update-Unique k m calls u)
]

module _ (P : CallKey → CallMeta → Type 0) where
  abbrev pub Every : Calls → Type 0
  Every [] = Unit {0}
  Every ((k, m) ∷ calls) = P k m × Every calls

  -- The calls are as those of a map, and the predicate holds of each.
  abbrev pub Good : Calls → Type 0
  Good calls = Unique calls × Every calls

  close_call-Every : (k : CallKey) (calls : Calls) → Every calls → Every (close_call k calls)
  close_call-Every k [] h = tt
  close_call-Every k ((k₁, m) ∷ calls) (p, h) = elim (Bool-cases (key_eq k k₁)) [
    | inl t ↦ rw t h
    | inr f ↦ rw f (p, close_call-Every k calls h)
  ]

  close_keys-Good : (ks : List CallKey) (calls : Calls) → Good calls → Good (close_keys ks calls)
  unfolding close_keys
  close_keys-Good [] calls g = g
  close_keys-Good (k ∷ ks) calls (u, h) =
      close_keys-Good ks (close_call k calls)
        (close_call-Unique k calls u, close_call-Every k calls h)

  pub flush_idle-Good :
      (idle_timeout now : ℕ) (calls : Calls) → Good calls → Good (flush_idle idle_timeout now calls)
  unfolding flush_idle
  flush_idle-Good idle_timeout now calls g =
      close_keys-Good (stale_keys idle_timeout now calls) calls g

  lookup-Every :
      (k : CallKey) (m : CallMeta) (calls : Calls) → Every calls → lookup k calls ≡ some m → P k m
  lookup-Every k m [] h e = absurd (none_ne_some e)
    where
      none_ne_some : ◌≡◌ {A = Option CallMeta} none (some m) → ⊥
      none_ne_some e = cc
  lookup-Every k m ((k₁, m₁) ∷ calls) (p, h) e = elim (Bool-cases (key_eq k k₁)) [
    | inl t ↦
        let same : m₁ ≡ m = cc (rw t at e) in
        subst (λ x. P k x) same (subst (λ x. P x m₁) (sym (key_eq-≡ k k₁ t)) p)
    | inr f ↦ lookup-Every k m calls h (rw f at e)
  ]

  update-Every :
      (k : CallKey) (m : CallMeta) (calls : Calls) → P k m → Every calls → Every (update k m calls)
  update-Every k m [] q h = tt
  update-Every k m ((k₁, m₁) ∷ calls) q (p, h) = elim (Bool-cases (key_eq k k₁)) [
    | inl t ↦ rw t (subst (λ x. P x m) (key_eq-≡ k k₁ t) q, h)
    | inr f ↦ rw f (p, update-Every k m calls q h)
  ]

  module _ (fs : FileSystem) (idle_timeout : ℕ) (t : Times) (key : CallKey) (samples : List ℕ) where
    open fs use {Disk, create, append}

    -- Kept, and the code comes back.
    abbrev pub Kept : Result IoError (Unit {0}) × Calls × Disk → Type 0
    Kept r = Good r.1 × Returns r.0

    abbrev pub grown : CallMeta → CallMeta
    grown m = record m {
      last_write = t.written;
      bytes_written = m.bytes_written + length (samples_le samples);
    }

    module _ (creates : (name : FileName) (disk : Disk) → Returns (create name disk))
        (appends : (name : FileName) (bytes : List ℕ) (disk : Disk)
          → Returns (append name bytes disk))
        (grows : (m : CallMeta) → P key m → P key (grown m)) where
      write_by :
          (m : CallMeta) (calls : Calls) (disk : Disk) (r : Result IoError Disk)
          → Good calls
          → lookup key calls ≡ some m
          → append m.path (samples_le samples) disk ≡ r
          → Kept (write_burst fs idle_timeout t key samples calls disk)
      unfolding write_burst
      write_by m calls disk (ok d) (u, h) e a =
          rw (write_burst, e, a)
            (
              (
                update-Unique key (grown m) calls u,
                update-Every key (grown m) calls (grows m (lookup-Every key m calls h e)) h,
              ),
              tt,
            )
      write_by m calls disk (err x) g e a = rw (write_burst, e, a) (g, tt)
      write_by m calls disk stuck g e a =
          absurd (rw a at (appends m.path (samples_le samples) disk))

      write_lem :
          (m : CallMeta) (calls : Calls) (disk : Disk)
          → Good calls
          → lookup key calls ≡ some m
          → Kept (write_burst fs idle_timeout t key samples calls disk)
      write_lem m calls disk g e =
          write_by m calls disk (append m.path (samples_le samples) disk) g e refl

      module _ (src dst : ℕ)
          (opens : (m : CallMeta) → m.src ≡ src → m.dst ≡ dst → m.bytes_written ≡ 0 → P key m) where
        abbrev fresh : CallMeta
        fresh = record {
          src = src;
          dst = dst;
          path = path_for t.unix_secs key src dst;
          last_write = t.opened;
          bytes_written = 0;
        }

        new_call :
            (calls : Calls) (disk : Disk) (r : Result IoError Disk)
            → Good (flush_idle idle_timeout t.flushed calls)
            → lookup key (flush_idle idle_timeout t.flushed calls) ≡ none
            → create (path_for t.unix_secs key src dst) disk ≡ r
            → Kept (handle_burst fs idle_timeout t key src dst samples calls disk)
        unfolding handle_burst open_call
        new_call calls disk (ok d) (u, h) e c =
            rw (handle_burst, open_call, e, c)
              (write_lem fresh ((key, fresh) ∷ flush_idle idle_timeout t.flushed calls) d
                ((e, u), (opens fresh refl refl refl, h)) (rw (key_eq_refl key) refl))
        new_call calls disk (err x) g e c = rw (handle_burst, open_call, e, c) (g, tt)
        new_call calls disk stuck g e c =
            absurd (rw c at (creates (path_for t.unix_secs key src dst) disk))

        old_call :
            (m : CallMeta) (calls : Calls) (disk : Disk)
            → Good (flush_idle idle_timeout t.flushed calls)
            → lookup key (flush_idle idle_timeout t.flushed calls) ≡ some m
            → Kept (handle_burst fs idle_timeout t key src dst samples calls disk)
        unfolding handle_burst open_call
        old_call m calls disk g e =
            rw (handle_burst, open_call, e)
              (write_lem m (flush_idle idle_timeout t.flushed calls) disk g e)

        pub handle_burst-Good :
            (calls : Calls) (disk : Disk)
            → Good calls
            → Kept (handle_burst fs idle_timeout t key src dst samples calls disk)
        handle_burst-Good calls disk g =
            let live = flush_idle-Good idle_timeout t.flushed calls g in
            elim (Option-cases (lookup key (flush_idle idle_timeout t.flushed calls))) [
              | inl absent ↦
                  new_call calls disk (create (path_for t.unix_secs key src dst) disk) live absent
                    refl
              | inr (m, there) ↦ old_call m calls disk live there
            ]
