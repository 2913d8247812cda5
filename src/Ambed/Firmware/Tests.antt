-- ===== src/Ambed/Firmware/Tests.antt =====
-- The loader at concrete inputs.
use wjmmmdvm.Base.{take, drop, ℕ, ◌≡◌, refl, true, false, inl, List, [], ◌∷◌, none, some}
use wjmmmdvm.Base.Result.{ok}
use wjmmmdvm.Ambed.Firmware.{AddressSpace, Process, load, drop_steps, run_steps, drop_firmware}
use wjmmmdvm.Ambed.Firmware.Load.{fixed_answers, the_firmware, Ended, load-Ended}
use wjmmmdvm.Ambed.Firmware.Slot.{
  in_regions, World, IsSafe, here, next, loads, drops, Reach-IsSafe, drop_race,
}

abbrev nothing_mapped : AddressSpace
nothing_mapped x = none

abbrev firmware_image : List ℕ
firmware_image = 1 ∷ 2 ∷ 3 ∷ []

abbrev core_image : List ℕ
core_image = 4 ∷ 5 ∷ []

abbrev started : Process
started = record { firmware_loaded = false; space = nothing_mapped }

-- The kernel refuses the third region.
load-Ended_example :
    Ended firmware_image core_image nothing_mapped
      (load firmware_image core_image none (fixed_answers none none none (some 12)) started)
load-Ended_example = load-Ended firmware_image core_image none none none (some 12) started refl

abbrev world : World
world = record { process = started; live = [] }

abbrev loaded_process : Process
loaded_process = (load firmware_image core_image none (fixed_answers none none none none) started).1

loaded_lem :
    load firmware_image core_image none (fixed_answers none none none none) started
    ≡ (ok the_firmware, loaded_process)
unfolding load
loaded_lem = refl

-- A load, and the drop of what it loaded.
abbrev dropped : World
dropped = record { process = drop_firmware the_firmware loaded_process; live = [] }

Reach-IsSafe_example : IsSafe firmware_image core_image dropped
Reach-IsSafe_example = Reach-IsSafe firmware_image core_image {v = world} (inl (refl, refl)) (
    next (next here (loads none none none none none loaded_lem))
      (drops [] [] the_firmware refl refl))

-- A firmware is live.
abbrev holding : Process
holding = record {
  firmware_loaded = true;
  space = (load firmware_image core_image none (fixed_answers none none none none) started).1.space;
}

drop_race_example :
    let begun = run_steps (take 1 (drop_steps the_firmware)) holding in
    let loaded = load firmware_image core_image none (fixed_answers none none none none) begun in
    let after = run_steps (drop 1 (drop_steps the_firmware)) loaded.1 in
    (loaded.0 ≡ ok the_firmware)
    × (after.firmware_loaded ≡ true)
    × ((x : ℕ) → in_regions x ≡ true → after.space x ≡ none)
drop_race_example = drop_race firmware_image core_image holding
