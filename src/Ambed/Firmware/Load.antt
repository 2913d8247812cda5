-- ===== src/Ambed/Firmware/Load.antt =====
-- `Firmware::load` of md380_emu_ambed/src/firmware.rs with a kernel that maps where it is asked to, or
-- fails: what is mapped after it, on every path.
use wjmmmdvm.Base.{
  ℕ, zero, suc, ◌+◌, ◌-◌, ◌≤◌, ◌<◌, ◌≡◌, ◌≢◌, refl, arith, ◌⊎◌, inl, inr, Bool, true, false, ◌||◌,
  List, [], ◌∷◌, length, get_or, Option, none, some,
}
use wjmmmdvm.Base.Result.{Result, ok, err, stuck}
use wjmmmdvm.Base.Text.{Text}
use wjmmmdvm.Ambed.Firmware.{
  firmware_addr, firmware_len, ram_addr, ram_len, tcram_addr, tcram_len, read_write, read_exec,
  FirmwareError, already_loaded, wrong_arch, AddressSpace, in_pages, whole_pages, MmapAnswer,
  mapped, failed, Firmware, Answers, Process, Loading, load_inner, release_on_error, load,
}

-- `MAP_FIXED`: the address asked for, or an error.
abbrev pub at_address : ℕ → Option ℕ → MmapAnswer
at_address addr none = mapped addr
at_address addr (some errno) = failed errno

abbrev pub fixed_answers : Option ℕ → Option ℕ → Option ℕ → Option ℕ → Answers
fixed_answers m₁ protect m₂ m₃ = record {
  map_firmware = at_address firmware_addr m₁;
  protect = protect;
  map_ram = at_address ram_addr m₂;
  map_tcram = at_address tcram_addr m₃;
}

abbrev pub in_firmware : ℕ → Bool
in_firmware x = in_pages firmware_addr firmware_len x

abbrev pub in_ram : ℕ → Bool
in_ram x = in_pages ram_addr ram_len x

abbrev pub in_tcram : ℕ → Bool
in_tcram x = in_pages tcram_addr tcram_len x

-- The one value of `Firmware` that there is.
abbrev pub the_firmware : Firmware
the_firmware = record {
  firmware = record { ptr = firmware_addr; len = firmware_len };
  ram = record { ptr = ram_addr; len = ram_len };
  tcram = record { ptr = tcram_addr; len = tcram_len };
}

get_or_beyond : (xs : List ℕ) (i : ℕ) → length xs ≤ i → get_or xs i 0 ≡ 0
get_or_beyond [] i h = refl
get_or_beyond (x ∷ xs) zero h = absurd (omega arith)
get_or_beyond (x ∷ xs) (suc i) h = get_or_beyond xs i (omega arith)

module _ (firmware_bytes core_bytes : List ℕ) where
  -- The images are mapped, by whole pages, with zeros behind them, the code without write access, and nothing else
  -- has changed.
  pub record IsLoaded (before after : AddressSpace) : Type 0 where
    pub code :
        (i : ℕ)
        → i < firmware_len
        → after (firmware_addr + i)
          ≡ some (record { value = get_or firmware_bytes i 0; prot = read_exec })
    pub padding :
        (i : ℕ)
        → firmware_len ≤ i
        → i < whole_pages firmware_len
        → after (firmware_addr + i) ≡ some (record { value = 0; prot = read_exec })
    pub memory :
        (i : ℕ)
        → i < ram_len
        → after (ram_addr + i) ≡ some (record { value = get_or core_bytes i 0; prot = read_write })
    pub scratch :
        (i : ℕ)
        → i < tcram_len
        → after (tcram_addr + i) ≡ some (record { value = 0; prot = read_write })
    pub others : (x : ℕ) → (in_firmware x || in_ram x || in_tcram x) ≡ false → after x ≡ before x

  abbrev spaces : AddressSpace → AddressSpace
  spaces before =
      (load_inner firmware_bytes core_bytes (fixed_answers none none none none) before).1

  code_lem :
      (before : AddressSpace) (i : ℕ)
      → i < firmware_len
      → spaces before (firmware_addr + i)
        ≡ some (record { value = get_or firmware_bytes i 0; prot = read_exec })
  unfolding load_inner
  code_lem before i h =
      let offset : firmware_addr + i - firmware_addr ≡ i = omega arith in
      ground (arith, offset, get_or_beyond firmware_bytes i)

  padding_lem :
      (before : AddressSpace) (i : ℕ)
      → firmware_len ≤ i
      → i < whole_pages firmware_len
      → spaces before (firmware_addr + i) ≡ some (record { value = 0; prot = read_exec })
  unfolding load_inner
  padding_lem before i h k = ground arith

  memory_lem :
      (before : AddressSpace) (i : ℕ)
      → i < ram_len
      → spaces before (ram_addr + i)
        ≡ some (record { value = get_or core_bytes i 0; prot = read_write })
  unfolding load_inner
  memory_lem before i h =
      let offset : ram_addr + i - ram_addr ≡ i = omega arith in
      ground (arith, offset, get_or_beyond core_bytes i)

  scratch_lem :
      (before : AddressSpace) (i : ℕ)
      → i < tcram_len
      → spaces before (tcram_addr + i) ≡ some (record { value = 0; prot = read_write })
  unfolding load_inner
  scratch_lem before i h = ground arith

  others_lem :
      (before : AddressSpace) (x : ℕ)
      → (in_firmware x || in_ram x || in_tcram x) ≡ false
      → spaces before x ≡ before x
  unfolding load_inner
  others_lem before x h = ground arith

  -- What a failed load leaves: each address as it was, or with nothing mapped in one of the regions.
  abbrev pub IsReleased : AddressSpace → AddressSpace → Type 0
  IsReleased before after =
      (x : ℕ)
      → (after x ≡ before x)
        ⊎ ((after x ≡ none) × ((in_firmware x || in_ram x || in_tcram x) ≡ true))

  abbrev pub Ended : AddressSpace → Result FirmwareError Firmware × Process → Type 0
  Ended before (ok fw, p) =
      (p.firmware_loaded ≡ true) × (fw ≡ the_firmware) × IsLoaded before p.space
  Ended before (err e, p) = (p.firmware_loaded ≡ false) × IsReleased before p.space
  Ended before (stuck, p) = ⊥

  abbrev loading :
      Option ℕ → Option ℕ → Option ℕ → Option ℕ → AddressSpace → Loading firmware_bytes core_bytes
  loading m₁ protect m₂ m₃ before =
      load_inner firmware_bytes core_bytes (fixed_answers m₁ protect m₂ m₃) before

  inner-Ended :
      (m₁ protect m₂ m₃ : Option ℕ) (before : AddressSpace)
      → Ended before (release_on_error firmware_bytes core_bytes (loading m₁ protect m₂ m₃ before))
  unfolding load_inner
  inner-Ended none none none none before = (
    refl,
    refl,
    record {
      code = code_lem before;
      padding = padding_lem before;
      memory = memory_lem before;
      scratch = scratch_lem before;
      others = others_lem before;
    },
  )
  inner-Ended (some e) protect m₂ m₃ before = (refl, λ x. inl refl)
  inner-Ended none (some e) m₂ m₃ before = (refl, λ x. ground arith)
  inner-Ended none none (some e) m₃ before = (refl, λ x. ground arith)
  inner-Ended none none none (some e) before = (refl, λ x. ground arith)

  -- With the slot free on an ARM machine, and for every way in which the four kernel calls
  -- succeed or fail: a load that succeeds leaves the slot taken, the firmware image read-only and
  -- executable up to the firmware's length, with zeros behind it to the end of its last page, the
  -- core image writable with zeros behind it, zeros in the scratch memory, and every address
  -- outside the pages of the three regions as it was; one that fails leaves the slot free, and
  -- each address as it was or, in those pages, with nothing mapped.
  pub load-Ended :
      (m₁ protect m₂ m₃ : Option ℕ) (p : Process)
      → p.firmware_loaded ≡ false
      → Ended p.space (load firmware_bytes core_bytes none (fixed_answers m₁ protect m₂ m₃) p)
  unfolding load
  load-Ended m₁ protect m₂ m₃ p free = rw free (inner-Ended m₁ protect m₂ m₃ p.space)

  -- The slot is taken, or the machine is another one: nothing is touched.
  pub load_refused :
      (arch : Option Text) (answers : Answers) (p : Process)
      → (arch ≢ none) ⊎ (p.firmware_loaded ≡ true)
      → (e : FirmwareError) × (load firmware_bytes core_bytes arch answers p ≡ (err e, p))
  unfolding load
  load_refused none answers p (inl other) = absurd (other refl)
  load_refused none answers p (inr taken) = (already_loaded, rw taken refl)
  load_refused (some a) answers p h = (wrong_arch a, refl)
