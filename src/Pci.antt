-- ===== src/Pci.antt =====
-- drivers/pci.c: the configuration space behind two ports, and the search for a device in it.
pub mod Places
pub mod Reads
pub mod Search
use sros.Prelude.{
  ℕ, zero, suc, ◌+◌, ◌-◌, ◌*◌, ◌/◌, ◌%◌, ◌^◌, Bool, ◌&&◌, ◌||◌, Option, none, some, List, [], ◌∷◌,
  leb, ◌==◌, if◌then◌else◌,
}
use sros.Ports.{Ports, Io, pure, ◌>>=◌, ◌>>◌, act}

-- `pci_device_t`
pub record PciDevice : Type 0 where
  pub bus : ℕ
  pub dev : ℕ
  pub func : ℕ
  pub vendor_id : ℕ
  pub device_id : ℕ
  pub class_code : ℕ
  pub subclass : ℕ
  pub prog_if : ℕ
  pub irq_line : ℕ
  pub bar : List ℕ

-- The word that selects a register: the parts of the code's `|` do not overlap for a device below 32
-- and a function below 8.
abbrev pub config_address : ℕ → ℕ → ℕ → ℕ → ℕ
config_address bus dev func offset =
    0x80000000 + bus * 65536 + dev * 2048 + func * 256 + offset / 4 * 4

-- The fields that the code takes out of the registers.
abbrev pub low_word : ℕ → ℕ
low_word r = r % 65536

abbrev pub high_word : ℕ → ℕ
high_word r = r / 65536 % 65536

abbrev pub byte_at : ℕ → ℕ → ℕ
byte_at k r = r / 256 ^ k % 256

-- A vendor of all ones or zeros: no function answers.
abbrev pub absent : ℕ → Bool
absent vendor = vendor == 0xFFFF || vendor == 0

-- A device of several functions has bit 7 of its header type set.
abbrev pub is_multi : ℕ → Bool
is_multi r = leb 128 (byte_at 2 r)

module _ {S : Type 0} (io : Ports S) where
  unfoldable pub pci_config_read : ℕ → ℕ → ℕ → ℕ → Io S ℕ
  pci_config_read bus dev func offset = do
    act (io.outl 0xCF8 (config_address bus dev func offset))
    io.inl 0xCFC

  unfoldable pub pci_config_write : ℕ → ℕ → ℕ → ℕ → ℕ → Io S (Unit {0})
  pci_config_write bus dev func offset value = do
    act (io.outl 0xCF8 (config_address bus dev func offset))
    act (io.outl 0xCFC value)

  -- The loop over the BARs, with the rounds left.
  bars_from : ℕ → ℕ → ℕ → ℕ → ℕ → Io S (List ℕ)
  unfolding pci_config_read
  bars_from zero bus dev func i = pure []
  bars_from (suc n) bus dev func i = do
    r ← pci_config_read bus dev func (0x10 + i * 4)
    rest ← bars_from n bus dev func (i + 1)
    pure (r ∷ rest)

  unfoldable pub pci_read_bars : ℕ → ℕ → ℕ → Io S (List ℕ)
  unfolding bars_from
  pci_read_bars bus dev func = bars_from 6 bus dev func 0

  -- The end of a hit, which the two searches share: what is left to read, and the record.
  found_device : ℕ → ℕ → ℕ → ℕ → ℕ → ℕ → Io S (Option PciDevice)
  unfolding pci_config_read pci_read_bars
  found_device bus d func vendor dr class_reg = do
    line ← pci_config_read bus d func 0x3C
    bar ← pci_read_bars bus d func
    pure (
        some (record {
          bus = bus;
          dev = d;
          func = func;
          vendor_id = vendor;
          device_id = high_word dr;
          class_code = byte_at 3 class_reg;
          subclass = byte_at 2 class_reg;
          prog_if = byte_at 1 class_reg;
          irq_line = line % 256;
          bar = bar;
        }))

  -- The test of `pci_find_device` on a function that answers.
  pub device_matches : ℕ → ℕ → ℕ → ℕ → ℕ → ℕ → Io S (Option PciDevice)
  unfolding pci_config_read found_device
  device_matches vendor_id device_id bus d func vendor = do
    dr ← pci_config_read bus d func 0x02
    let hit = do
      class_reg ← pci_config_read bus d func 0x08
      found_device bus d func vendor dr class_reg
    if vendor == vendor_id && high_word dr == device_id then hit else pure none

  -- The same for `pci_find_by_class`, which reads the class first.
  pub class_matches : ℕ → ℕ → ℕ → ℕ → ℕ → ℕ → Io S (Option PciDevice)
  unfolding pci_config_read found_device
  class_matches class_code subclass bus d func vendor = do
    class_reg ← pci_config_read bus d func 0x08
    let hit = do dr ← pci_config_read bus d func 0x02; found_device bus d func vendor dr class_reg
    if byte_at 3 class_reg == class_code && byte_at 2 class_reg == subclass then hit else pure none

  -- The loops that `pci_find_device` and `pci_find_by_class` share word for word around their tests,
  -- with the rounds left. `return 0` ends them all.
  module _ (matches : ℕ → ℕ → ℕ → ℕ → Io S (Option PciDevice)) where
    -- What follows a function's test: the next function, unless function 0 is the only one.
    after_test : ℕ → ℕ → ℕ → Io S (Option PciDevice) → Option PciDevice → Io S (Option PciDevice)
    unfolding pci_config_read
    after_test bus d func rest (some dev) = pure (some dev)
    after_test bus d func rest none =
        let single = (do
          header ← pci_config_read bus d 0 0x0E
          if is_multi header then rest else pure none) in
        if func == 0 then single else rest

    find_func : ℕ → ℕ → ℕ → ℕ → Io S (Option PciDevice)
    unfolding after_test pci_config_read
    find_func zero bus d func = pure none
    find_func (suc n) bus d func = do
      vr ← pci_config_read bus d func 0x00
      let vendor = low_word vr
      let rest = find_func n bus d (func + 1)
      let tested = do found ← matches bus d func vendor; after_test bus d func rest found
      if absent vendor then (if func == 0 then pure none else rest) else tested

    -- The result of a loop's body ends the loop, or the loop goes on.
    or_next : Io S (Option PciDevice) → Option PciDevice → Io S (Option PciDevice)
    or_next rest (some dev) = pure (some dev)
    or_next rest none = rest

    find_dev : ℕ → ℕ → ℕ → Io S (Option PciDevice)
    unfolding find_func or_next
    find_dev zero bus d = pure none
    find_dev (suc n) bus d = do found ← find_func 8 bus d 0; or_next (find_dev n bus (d + 1)) found

    find_bus : ℕ → ℕ → Io S (Option PciDevice)
    unfolding find_dev or_next
    find_bus zero bus = pure none
    find_bus (suc n) bus = do found ← find_dev 32 bus 0; or_next (find_bus n (bus + 1)) found

  -- `none` stands for -1.
  unfoldable pub pci_find_device : ℕ → ℕ → Io S (Option PciDevice)
  unfolding find_bus device_matches
  pci_find_device vendor_id device_id = find_bus (device_matches vendor_id device_id) 256 0

  unfoldable pub pci_find_by_class : ℕ → ℕ → Io S (Option PciDevice)
  unfolding find_bus class_matches
  pci_find_by_class class_code subclass = find_bus (class_matches class_code subclass) 256 0

  -- Bits 0 to 2 of a register are set.
  abbrev pub with_low_bits : ℕ → ℕ
  with_low_bits c = c / 8 * 8 + 7

  unfoldable pub pci_enable_bus_master : PciDevice → Io S (Unit {0})
  unfolding pci_config_read pci_config_write
  pci_enable_bus_master dev = do
    r ← pci_config_read dev.bus dev.dev dev.func 0x04
    pci_config_write dev.bus dev.dev dev.func 0x04 (with_low_bits (low_word r))
