-- ===== src/Ambed/Firmware.antt =====
-- md380_emu_ambed/src/firmware.rs: the process-wide slot, and the three regions that hold the
-- firmware, its RAM and its scratch memory. The address space is a function from addresses; what the
-- kernel answers to each call is an argument, and so are the two images, which the repository does not
-- hold. The order of the steps of a drop is kept, since another thread may run between them.
pub mod Load
pub mod Slot
mod Tests
use wjmmmdvm.Base.{
  ℕ, ◌+◌, ◌-◌, ◌*◌, ◌/◌, min, Bool, true, false, ◌&&◌, not, if◌then◌else◌, ltb, leb, ◌==◌, List, [],
  ◌∷◌, length, get_or, Option, none, some,
}
use wjmmmdvm.Base.Result.{Result, ok, err, stuck, ◌>>=◌}
use wjmmmdvm.Base.Text.{Text}

abbrev pub firmware_addr : ℕ
firmware_addr = 0x0800_c000

abbrev pub firmware_len : ℕ
firmware_len = 994304

abbrev pub ram_addr : ℕ
ram_addr = 0x2000_0000

abbrev pub ram_len : ℕ
ram_len = 0x0002_0000

abbrev pub tcram_addr : ℕ
tcram_addr = 0x1000_0000

abbrev pub tcram_len : ℕ
tcram_len = 0x0001_0000

-- `PROT_READ | PROT_WRITE`, with `PROT_EXEC`, and without `PROT_WRITE`.
abbrev pub read_write : ℕ
read_write = 3

abbrev pub read_write_exec : ℕ
read_write_exec = 7

abbrev pub read_exec : ℕ
read_exec = 5

pub data Errno : Type 0 where
  os_error : ℕ → Errno
  addr_in_use : ℕ → Errno

pub data FirmwareError : Type 0 where
  mmap : ℕ → ℕ → Errno → FirmwareError
  mprotect : ℕ → Errno → FirmwareError
  wrong_arch : Text → FirmwareError
  already_loaded : FirmwareError

pub record Cell : Type 0 where
  pub value : ℕ
  pub prot : ℕ

-- `none`: nothing is mapped there.
abbrev pub AddressSpace : Type 0
AddressSpace = ℕ → Option Cell

pub record MappedRegion : Type 0 where
  pub ptr : ℕ
  pub len : ℕ

abbrev pub in_region : ℕ → ℕ → ℕ → Bool
in_region addr len x = leb addr x && ltb x (addr + len)

-- The kernel maps, unmaps and protects whole pages.
abbrev pub page_size : ℕ
page_size = 4096

abbrev pub whole_pages : ℕ → ℕ
whole_pages len = (len + page_size - 1) / page_size * page_size

abbrev pub in_pages : ℕ → ℕ → ℕ → Bool
in_pages addr len x = in_region addr (whole_pages len) x

-- The kernel's calls. `mmap` with `MAP_FIXED` replaces what was mapped, by zeros.
abbrev pub map_at : ℕ → ℕ → ℕ → AddressSpace → AddressSpace
map_at addr len prot space x =
    if in_pages addr len x then some (record { value = 0; prot = prot }) else space x

abbrev pub munmap : ℕ → ℕ → AddressSpace → AddressSpace
munmap addr len space x = if in_pages addr len x then none else space x

abbrev pub reprotect : ℕ → Option Cell → Option Cell
reprotect prot none = none
reprotect prot (some c) = some (record { value = c.value; prot = prot })

abbrev pub store : ℕ → Option Cell → Option Cell
store value none = none
store value (some c) = some (record { value = value; prot = c.prot })

pub data MmapAnswer : Type 0 where
  mapped : ℕ → MmapAnswer
  failed : ℕ → MmapAnswer

unfoldable pub new_fixed :
    MmapAnswer → ℕ → ℕ → ℕ → AddressSpace → Result FirmwareError MappedRegion × AddressSpace
new_fixed (failed errno) addr len prot space = (err (mmap addr len (os_error errno)), space)
new_fixed (mapped raw) addr len prot space =
    let space' = map_at raw len prot space in
    if not (raw == addr)
    then (err (mmap addr len (addr_in_use raw)), space')
    else (ok (record { ptr = raw; len = len }), space')

unfoldable pub write_padded : MappedRegion → List ℕ → AddressSpace → AddressSpace
write_padded r src space x =
    let n = min (length src) r.len in
    if in_region r.ptr n x then store (get_or src (x - r.ptr) 0) (space x) else space x

-- `none`: the kernel takes the new protection.
unfoldable pub set_protection :
    Option ℕ → MappedRegion → ℕ → AddressSpace → Result FirmwareError (Unit {0}) × AddressSpace
set_protection (some errno) r prot space = (err (mprotect r.ptr (os_error errno)), space)
set_protection none r prot space =
    (ok tt, λ x. if in_pages r.ptr r.len x then reprotect prot (space x) else space x)

-- `Drop for MappedRegion`.
unfoldable pub drop_region : MappedRegion → AddressSpace → AddressSpace
drop_region r space = munmap r.ptr r.len space

pub record Firmware : Type 0 where
  pub firmware : MappedRegion
  pub ram : MappedRegion
  pub tcram : MappedRegion

-- What the kernel answers to the calls of one `load`.
pub record Answers : Type 0 where
  pub map_firmware : MmapAnswer
  pub protect : Option ℕ
  pub map_ram : MmapAnswer
  pub map_tcram : MmapAnswer

pub record Process : Type 0 where
  pub firmware_loaded : Bool
  pub space : AddressSpace

-- The target architecture, where it is not `arm`.
unfoldable pub check_arch : Option Text → Result FirmwareError (Unit {0})
check_arch none = ok tt
check_arch (some arch) = err (wrong_arch arch)

module _ (firmware_bytes core_bytes : List ℕ) where
  -- The regions that are there when a step fails are dropped, the last first.
  abbrev pub Loading : Type 0
  Loading = Result FirmwareError Firmware × AddressSpace

  unfoldable pub load_tcram : MmapAnswer → MappedRegion → MappedRegion → AddressSpace → Loading
  unfolding new_fixed drop_region
  load_tcram answer firmware ram space =
      let (region, space₁) = new_fixed answer tcram_addr tcram_len read_write space in
      elim region [
        | err e ↦ (err e, drop_region firmware (drop_region ram space₁))
        | stuck ↦ (stuck, space₁)
        | ok tcram ↦ (ok (record { firmware = firmware; ram = ram; tcram = tcram }), space₁)
      ]

  unfoldable pub load_ram : Answers → MappedRegion → AddressSpace → Loading
  unfolding new_fixed drop_region write_padded load_tcram
  load_ram answers firmware space =
      let (region, space₁) = new_fixed answers.map_ram ram_addr ram_len read_write space in
      elim region [
        | err e ↦ (err e, drop_region firmware space₁)
        | stuck ↦ (stuck, space₁)
        | ok ram ↦ load_tcram answers.map_tcram firmware ram (write_padded ram core_bytes space₁)
      ]

  unfoldable pub protect_firmware : Answers → MappedRegion → AddressSpace → Loading
  unfolding set_protection drop_region load_ram
  protect_firmware answers firmware space =
      let (done, space₁) = set_protection answers.protect firmware read_exec space in
      elim done [
        | err e ↦ (err e, drop_region firmware space₁)
        | stuck ↦ (stuck, space₁)
        | ok _ ↦ load_ram answers firmware space₁
      ]

  unfoldable pub load_inner : Answers → AddressSpace → Loading
  unfolding new_fixed write_padded protect_firmware
  load_inner answers space =
      let (region, space₁) =
        new_fixed answers.map_firmware firmware_addr firmware_len read_write_exec space in
      elim region [
        | err e ↦ (err e, space₁)
        | stuck ↦ (stuck, space₁)
        | ok firmware ↦
            protect_firmware answers firmware (write_padded firmware firmware_bytes space₁)
      ]

  -- `compare_exchange` on the slot, and its release where the loading fails.
  abbrev pub release_on_error : Loading → Result FirmwareError Firmware × Process
  release_on_error (err e, space) = (err e, record { firmware_loaded = false; space = space })
  release_on_error (stuck, space) = (stuck, record { firmware_loaded = true; space = space })
  release_on_error (ok fw, space) = (ok fw, record { firmware_loaded = true; space = space })

  unfoldable pub load : Option Text → Answers → Process → Result FirmwareError Firmware × Process
  unfolding check_arch load_inner
  load arch answers p = elim (check_arch arch) [
    | err e ↦ (err e, p)
    | stuck ↦ (stuck, p)
    | ok _ ↦
        if p.firmware_loaded
        then (err already_loaded, p)
        else release_on_error (load_inner answers p.space)
  ]

-- `Drop for Firmware`: the body of `drop`, and then the fields in their order. Other threads may run
-- between two steps.
unfoldable pub release_slot : Process → Process
release_slot p = record p { firmware_loaded = false }

unfoldable pub drop_field : MappedRegion → Process → Process
unfolding drop_region
drop_field r p = record p { space = drop_region r p.space }

unfoldable pub drop_steps : Firmware → List (Process → Process)
unfolding release_slot drop_field
drop_steps fw = release_slot ∷ drop_field fw.firmware ∷ drop_field fw.ram ∷ drop_field fw.tcram ∷ []

abbrev pub run_steps : List (Process → Process) → Process → Process
run_steps [] p = p
run_steps (step ∷ steps) p = run_steps steps (step p)

-- The whole drop, where no other thread runs in between.
unfoldable pub drop_firmware : Firmware → Process → Process
unfolding drop_steps
drop_firmware fw p = run_steps (drop_steps fw) p
