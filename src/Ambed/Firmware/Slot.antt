-- ===== src/Ambed/Firmware/Slot.antt =====
-- The process-wide slot of md380_emu_ambed/src/firmware.rs: with each load and drop done before the
-- next, and with a load between two steps of a drop.
use wjmmmdvm.Base.{
  ltb, take, drop, ℕ, ◌+◌, ◌-◌, ◌≡◌, ◌≢◌, refl, sym, ap, ◌∙◌, arith, ◌⊎◌, inl, inr, Bool, true,
  false, ◌||◌, List, [], ◌∷◌, ◌++◌, Option, none, some, Bool-cases,
}
use wjmmmdvm.Base.Result.{Result, ok, err, stuck}
use mathlib.Core.Path.{subst}
use wjmmmdvm.Base.Text.{Text}
use wjmmmdvm.Ambed.Firmware.{
  firmware_addr, ram_addr, tcram_addr, FirmwareError, AddressSpace, Firmware, Process, load,
  drop_steps, run_steps, drop_firmware, firmware_len,
}
use wjmmmdvm.Ambed.Firmware.Load.{
  fixed_answers, in_firmware, in_ram, in_tcram, the_firmware, IsLoaded, Ended, load-Ended,
  load_refused,
}

abbrev pub in_regions : ℕ → Bool
in_regions x = in_firmware x || in_ram x || in_tcram x

-- The process, and the values of `Firmware` that the program holds.
pub record World : Type 0 where
  pub process : Process
  pub live : List Firmware

abbrev pub hold : Result FirmwareError Firmware → List Firmware → List Firmware
hold (ok fw) live = fw ∷ live
hold (err e) live = live
hold stuck live = live

some_ne_none : {A : Type 0} {o : Option A} {a : A} → o ≡ some a → o ≢ none
some_ne_none e n = cc

not_empty :
    (before : List Firmware) (fw : Firmware) (after : List Firmware) → before ++ fw ∷ after ≢ []
not_empty [] fw after e = cc
not_empty (b ∷ bs) fw after e = cc

nothing_left :
    (before : List Firmware) (fw : Firmware) (after : List Firmware) {only : Firmware}
    → before ++ fw ∷ after ≡ only ∷ []
    → before ++ after ≡ []
nothing_left [] fw after e = cc
nothing_left (b ∷ bs) fw after e = absurd (not_empty bs fw after (cc))

module _ (firmware_bytes core_bytes : List ℕ) where
  -- A load with any answers of the kernel, a drop, and other code, which unmaps nothing.
  pub data Step : World → World → Type 0 where
    loads :
        {p p' : Process} {live : List Firmware} {r : Result FirmwareError Firmware}
        (arch : Option Text) (m₁ protect m₂ m₃ : Option ℕ)
        → load firmware_bytes core_bytes arch (fixed_answers m₁ protect m₂ m₃) p ≡ (r, p')
        → Step (record { process = p; live = live }) (record { process = p'; live = hold r live })
    drops :
        {p : Process} {live live' : List Firmware} (before after : List Firmware) (fw : Firmware)
        → live ≡ before ++ fw ∷ after
        → live' ≡ before ++ after
        → Step
            (record { process = p; live = live })
            (record { process = drop_firmware fw p; live = live' })
    runs :
        {p : Process} {live : List Firmware} (space : AddressSpace)
        → ((x : ℕ) → p.space x ≢ none → space x ≢ none)
        → Step
            (record { process = p; live = live })
            (record { process = record p { space = space }; live = live })

  pub data Reach (start : World) : World → Type 0 where
    here : Reach start start
    next : {v w : World} → Reach start v → Step v w → Reach start w

  -- One value at most is live, exactly while the slot is taken, and its regions are mapped.
  abbrev pub IsFree : World → Type 0
  IsFree w = (w.process.firmware_loaded ≡ false) × (w.live ≡ [])

  abbrev pub IsHeld : World → Type 0
  IsHeld w =
      (w.process.firmware_loaded ≡ true)
      × (w.live ≡ the_firmware ∷ [])
      × ((x : ℕ) → in_regions x ≡ true → w.process.space x ≢ none)

  abbrev pub IsSafe : World → Type 0
  IsSafe w = IsFree w ⊎ IsHeld w

  IsLoaded-mapped :
      {before after : AddressSpace}
      → IsLoaded firmware_bytes core_bytes before after
      → (x : ℕ) → in_regions x ≡ true
      → after x ≢ none
  IsLoaded-mapped {after = after} l x h = elim (Bool-cases (in_firmware x)) [
    | inl f ↦
        let at : firmware_addr + (x - firmware_addr) ≡ x = ground arith in
        elim (Bool-cases (ltb (x - firmware_addr) firmware_len)) [
          | inl code ↦ some_ne_none (rw at at (l.code (x - firmware_addr) (ground arith)))
          | inr behind ↦
              some_ne_none (rw at at (l.padding (x - firmware_addr) (ground arith) (ground arith)))
        ]
    | inr f ↦ elim (Bool-cases (in_ram x)) [
      | inl r ↦
          let at : ram_addr + (x - ram_addr) ≡ x = ground arith in
          some_ne_none (rw at at (l.memory (x - ram_addr) (ground arith)))
      | inr r ↦
          let at : tcram_addr + (x - tcram_addr) ≡ x = ground arith in
          some_ne_none (rw at at (l.scratch (x - tcram_addr) (ground arith)))
    ]
  ]

  -- A load from the free slot.
  after_load :
      (space : AddressSpace) (r : Result FirmwareError Firmware) (p' : Process)
      → Ended firmware_bytes core_bytes space (r, p')
      → IsSafe (record { process = p'; live = hold r [] })
  after_load space (ok fw) p' (taken, e, l) = inr (taken, ap (λ f. f ∷ []) e, IsLoaded-mapped l)
  after_load space (err e) p' (free, released) = inl (free, refl)
  after_load space stuck p' h = absurd h

  -- A load that is refused.
  after_refusal :
      (p p' : Process) (live : List Firmware) (r : Result FirmwareError Firmware)
      (e : FirmwareError)
      → IsSafe (record { process = p; live = live })
      → ◌≡◌ {A = Result FirmwareError Firmware × Process} (err e, p) (r, p')
      → IsSafe (record { process = p'; live = hold r live })
  after_refusal p p' live r e safe h =
      subst
        (λ (x : Result FirmwareError Firmware × Process).
          IsSafe (record { process = x.1; live = hold x.0 live }))
        h safe

  load-IsSafe :
      (p p' : Process) (live : List Firmware) (r : Result FirmwareError Firmware)
      (arch : Option Text) (m₁ protect m₂ m₃ : Option ℕ)
      → load firmware_bytes core_bytes arch (fixed_answers m₁ protect m₂ m₃) p ≡ (r, p')
      → IsSafe (record { process = p; live = live })
      → IsSafe (record { process = p'; live = hold r live })
  load-IsSafe p p' live r (some a) m₁ protect m₂ m₃ h safe =
      let (e, refused) =
        load_refused firmware_bytes core_bytes (some a) (fixed_answers m₁ protect m₂ m₃) p
          (inl (λ x. cc)) in
      after_refusal p p' live r e safe (sym refused ∙ h)
  load-IsSafe p p' live r none m₁ protect m₂ m₃ h (inr (taken, one, mapped)) =
      let (e, refused) =
        load_refused firmware_bytes core_bytes none (fixed_answers m₁ protect m₂ m₃) p
          (inr taken) in
      after_refusal p p' live r e (inr (taken, one, mapped)) (sym refused ∙ h)
  load-IsSafe p p' live r none m₁ protect m₂ m₃ h (inl (free, nothing)) =
      let ended = load-Ended firmware_bytes core_bytes m₁ protect m₂ m₃ p free in
      rw nothing (after_load p.space r p' (subst (Ended firmware_bytes core_bytes p.space) h ended))

  Step-IsSafe : {v w : World} → Step v w → IsSafe v → IsSafe w
  unfolding drop_firmware
  Step-IsSafe (loads {p} {p'} {live} {r} arch m₁ protect m₂ m₃ h) safe =
      load-IsSafe p p' live r arch m₁ protect m₂ m₃ h safe
  Step-IsSafe (drops before after fw e e') (inl (free, nothing)) =
      absurd (not_empty before fw after (sym e ∙ nothing))
  Step-IsSafe (drops before after fw e e') (inr (taken, one, mapped)) =
      inl (refl, e' ∙ nothing_left before fw after (sym e ∙ one))
  Step-IsSafe (runs space keeps) (inl free) = inl free
  Step-IsSafe (runs space keeps) (inr (taken, one, mapped)) =
      inr (taken, one, λ x h. keeps x (mapped x h))

  -- From a process with the slot free and no firmware held, or with the slot taken and one held
  -- whose regions are mapped, any number of loads, with any answers of the kernel to calls at a
  -- fixed address, of whole drops, and of steps of other code that unmap nothing leads to such a
  -- process: there is never a second live firmware, and its memory stays mapped.
  pub Reach-IsSafe : {v w : World} → IsSafe v → Reach v w → IsSafe w
  Reach-IsSafe safe here = safe
  Reach-IsSafe safe (next r s) = Step-IsSafe s (Reach-IsSafe safe r)

  -- Where another load, for which the kernel grants all, runs after the first step of a drop and
  -- before its others, that load succeeds, the slot stays taken behind the drop, and none of the
  -- memory of the loaded firmware is mapped.
  pub drop_race :
      (p : Process)
      → let begun = run_steps (take 1 (drop_steps the_firmware)) p in
        let loaded =
          load firmware_bytes core_bytes none (fixed_answers none none none none) begun in
        let after = run_steps (drop 1 (drop_steps the_firmware)) loaded.1 in
        (loaded.0 ≡ ok the_firmware)
        × (after.firmware_loaded ≡ true)
        × ((x : ℕ) → in_regions x ≡ true → after.space x ≡ none)
  unfolding load drop_steps
  drop_race p = (refl, refl, λ x h. ground arith)
