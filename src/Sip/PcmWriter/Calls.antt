-- ===== src/Sip/PcmWriter/Calls.antt =====
-- The open calls of mmdvm_sip/src/pcm_writer.rs.
use wjmmmdvm.Base.{
  ℕ, ◌+◌, ◌-◌, ltb, ◌≡◌, refl, sym, ap, ap₂, ◌∙◌, arith, Bool, true, false, ◌||◌, Bool-cases, inl,
  inr, if◌then◌else◌,
}
use wjmmmdvm.Base.{List, [], ◌∷◌, Option, none, some}
use wjmmmdvm.Sip.PcmWriter.{
  CallKey, CallMeta, Calls, key_eq, lookup, update, close_call, is_stale, stale_keys, close_keys,
  flush_idle,
}

-- A call stays open unless it has been idle for longer than the limit.
abbrev pub still_open : ℕ → ℕ → Option CallMeta → Option CallMeta
still_open idle_timeout now none = none
still_open idle_timeout now (some m) =
    if ltb (m.last_write + idle_timeout) now then none else some m

-- The same by the code's test.
abbrev kept : ℕ → ℕ → Option CallMeta → Option CallMeta
kept idle_timeout now none = none
kept idle_timeout now (some m) = if is_stale idle_timeout now m then none else some m

kept_lem :
    (idle_timeout now : ℕ) (o : Option CallMeta)
    → kept idle_timeout now o ≡ still_open idle_timeout now o
unfolding is_stale
kept_lem idle_timeout now none = refl
kept_lem idle_timeout now (some m) =
    let same : ltb idle_timeout (now - m.last_write) ≡ ltb (m.last_write + idle_timeout) now =
      ground arith in
    ap (λ t. if t then none else some m) same

-- A map has a key once.
abbrev pub Unique : Calls → Type 0
Unique [] = Unit {0}
Unique ((k, m) ∷ calls) = (lookup k calls ≡ none) × Unique calls

pub key_eq_refl : (k : CallKey) → key_eq k k ≡ true
key_eq_refl k = ground arith

pub key_eq_sym : (a b : CallKey) → key_eq a b ≡ key_eq b a
key_eq_sym a b = ground arith

pub key_eq_trans : (a b c : CallKey) → key_eq a b ≡ true → key_eq b c ≡ key_eq a c
key_eq_trans a b c h = ground arith

lookup_same : (a b : CallKey) (calls : Calls) → key_eq a b ≡ true → lookup a calls ≡ lookup b calls
lookup_same a b [] h = refl
lookup_same a b ((k, m) ∷ calls) h =
    ap₂ (λ t r. if t then some m else r) (sym (key_eq_trans a b k h)) (lookup_same a b calls h)

pub lookup-update_self :
    (k : CallKey) (m m' : CallMeta) (calls : Calls)
    → lookup k calls ≡ some m
    → lookup k (update k m' calls) ≡ some m'
lookup-update_self k m m' [] h = cc
lookup-update_self k m m' ((k', x) ∷ calls) h = elim (Bool-cases (key_eq k k')) [
  | inl t ↦ rw (t, t) refl
  | inr f ↦ rw (f, f) (lookup-update_self k m m' calls (rw f at h))
]

lookup-close_call :
    (k k' : CallKey) (calls : Calls)
    → Unique calls
    → lookup k (close_call k' calls) ≡ (if key_eq k k' then none else lookup k calls)
lookup-close_call k k' [] u = elim (Bool-cases (key_eq k k')) [
  | inl t ↦ rw t refl
  | inr f ↦ rw f refl
]
lookup-close_call k k' ((k₁, m) ∷ calls) (fresh, u) = elim (Bool-cases (key_eq k' k₁)) [
  | inl here ↦ elim (Bool-cases (key_eq k k')) [
    | inl t ↦
        let gone : lookup k calls ≡ none =
          lookup_same k k₁ calls (sym (key_eq_trans k k' k₁ t) ∙ here) ∙ fresh in
        rw (here, t) gone
    | inr f ↦
        let apart : key_eq k k₁ ≡ false =
          key_eq_sym k k₁ ∙ key_eq_trans k' k₁ k here ∙ key_eq_sym k' k ∙ f in
        rw (here, f, apart) refl
  ]
  | inr past ↦ elim (Bool-cases (key_eq k k₁)) [
    | inl t ↦
        let apart : key_eq k k' ≡ false = sym (key_eq_trans k k₁ k' t) ∙ key_eq_sym k₁ k' ∙ past in
        rw (past, t, apart) refl
    | inr f ↦ rw (past, f) (lookup-close_call k k' calls u)
  ]
]

pub close_call-Unique : (k : CallKey) (calls : Calls) → Unique calls → Unique (close_call k calls)
close_call-Unique k [] u = tt
close_call-Unique k ((k₁, m) ∷ calls) (fresh, u) = elim (Bool-cases (key_eq k k₁)) [
  | inl here ↦ rw here u
  | inr past ↦
      let still : lookup k₁ (close_call k calls) ≡ none =
        lookup-close_call k₁ k calls u
        ∙ ap (λ o. if key_eq k₁ k then none else o) fresh
        ∙ (ground arith) in
      rw past (still, close_call-Unique k calls u)
]

abbrev member : CallKey → List CallKey → Bool
member k [] = false
member k (k' ∷ ks) = key_eq k k' || member k ks

lookup-close_keys :
    (k : CallKey) (ks : List CallKey) (calls : Calls)
    → Unique calls
    → lookup k (close_keys ks calls) ≡ (if member k ks then none else lookup k calls)
unfolding close_keys
lookup-close_keys k [] calls u = refl
lookup-close_keys k (k' ∷ ks) calls u =
    lookup-close_keys k ks (close_call k' calls) (close_call-Unique k' calls u)
    ∙ ap (λ o. if member k ks then none else o) (lookup-close_call k k' calls u)
    ∙ either (member k ks) (key_eq k k') (lookup k calls)
  where
    either :
        (a b : Bool) (o : Option CallMeta)
        → (if a then none else (if b then none else o)) ≡ (if b || a then none else o)
    either true true o = refl
    either true false o = refl
    either false true o = refl
    either false false o = refl

module _ (idle_timeout now : ℕ) where
  not_stale :
      (k : CallKey) (calls : Calls)
      → lookup k calls ≡ none
      → member k (stale_keys idle_timeout now calls) ≡ false
  unfolding stale_keys
  not_stale k [] h = refl
  not_stale k ((k₁, m) ∷ calls) h = elim (Bool-cases (key_eq k k₁)) [
    | inl here ↦ absurd (some_ne_none (rw here at h))
    | inr past ↦ elim (Bool-cases (is_stale idle_timeout now m)) [
      | inl old ↦ rw (old, past) (not_stale k calls (rw past at h))
      | inr young ↦ rw young (not_stale k calls (rw past at h))
    ]
  ]
    where
      some_ne_none : {m : CallMeta} → ◌≡◌ {A = Option CallMeta} (some m) none → ⊥
      some_ne_none e = cc

  stale_lookup :
      (k : CallKey) (calls : Calls)
      → Unique calls
      → (if member k (stale_keys idle_timeout now calls) then none else lookup k calls)
        ≡ kept idle_timeout now (lookup k calls)
  unfolding stale_keys
  stale_lookup k [] u = refl
  stale_lookup k ((k₁, m) ∷ calls) (fresh, u) = elim (Bool-cases (key_eq k k₁)) [
    | inl here ↦ elim (Bool-cases (is_stale idle_timeout now m)) [
      | inl old ↦ rw (here, old, here) refl
      | inr young ↦
          let absent = not_stale k calls (lookup_same k k₁ calls here ∙ fresh) in
          rw (here, young, absent) refl
    ]
    | inr past ↦ elim (Bool-cases (is_stale idle_timeout now m)) [
      | inl old ↦ rw (past, old, past) (stale_lookup k calls u)
      | inr young ↦ rw (past, young) (stale_lookup k calls u)
    ]
  ]

  -- Where no two open calls have the same key, `flush_idle` leaves a call open and unchanged
  -- exactly where its last write and the idle limit together are not before the time of the
  -- flush, and closes it else.
  pub lookup-flush_idle :
      (k : CallKey) (calls : Calls)
      → Unique calls
      → lookup k (flush_idle idle_timeout now calls) ≡ still_open idle_timeout now (lookup k calls)
  unfolding flush_idle
  lookup-flush_idle k calls u =
      lookup-close_keys k (stale_keys idle_timeout now calls) calls u
      ∙ stale_lookup k calls u
      ∙ kept_lem idle_timeout now (lookup k calls)
