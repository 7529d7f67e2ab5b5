-- ===== src/Pci/Reads.antt =====
-- What the reads of drivers/pci.c give, and what its tests decide, at a function that answers.
use sros.Prelude.{
  ℕ, zero, suc, ◌+◌, ◌*◌, ◌%◌, ◌≡◌, refl, Bool, ◌&&◌, Option, none, some, List, ◌∷◌, ◌==◌,
  if◌then◌else◌,
}
use mathlib.Core.Path.{ap₂}
use sros.Ports.{Ports, Io, Gives, pure, ◌>>=◌, Gives-pure, Gives-bind, Gives-if}
use sros.Pci.{
  PciDevice, config_address, low_word, high_word, byte_at, pci_config_read, bars_from, found_device,
  pci_read_bars, device_matches, class_matches,
}
use sros.Pci.Places.{Place, register, registers, device_at}

module _ {S : Type 0} (io : Ports S) (cfg : ℕ → ℕ) (P : S → Type 0) where
  -- The documented access to the configuration space: the word that was written to the address port
  -- selects the register that the data port gives. `P` is what the machine keeps meanwhile.
  abbrev pub IsConfig : Type 0
  IsConfig =
      (a : ℕ) (s : S) → P s → let r = io.inl 0xCFC (io.outl 0xCF8 a s) in (r.0 ≡ cfg a) × P r.1

module _ {S : Type 0} (io : Ports S) (cfg : ℕ → ℕ) (P : S → Type 0)
    (config : IsConfig io cfg P) where
  pub read-Gives :
      (p : Place) (offset : ℕ)
      → Gives P (pci_config_read io p.bus p.dev p.func offset) (register cfg p offset)
  unfolding pci_config_read
  read-Gives p offset s ok = config (config_address p.bus p.dev p.func offset) s ok

  bars_from-Gives :
      (n i : ℕ) (p : Place) → Gives P (bars_from io n p.bus p.dev p.func i) (registers cfg i n p)
  unfolding bars_from
  bars_from-Gives zero i p s ok = (refl, ok)
  bars_from-Gives (suc n) i p s ok =
      let (here, ok1) = read-Gives p (0x10 + i * 4) s ok in
      let s1 = (pci_config_read io p.bus p.dev p.func (0x10 + i * 4) s).1 in
      let (rest, ok2) = bars_from-Gives n (i + 1) p s1 ok1 in (ap₂ ◌∷◌ here rest, ok2)

  -- The device at a place, in which the vendor and two registers have been read already.
  found-Gives :
      (p : Place)
      → Gives P
          (found_device io p.bus p.dev p.func
            (low_word (register cfg p 0x00))
            (register cfg p 0x02)
            (register cfg p 0x08))
          (some (device_at cfg p))
  unfolding found_device pci_read_bars
  found-Gives p s ok =
      let (line, ok1) = read-Gives p 0x3C s ok in
      let s1 = (pci_config_read io p.bus p.dev p.func 0x3C s).1 in
      let (bars, ok2) = bars_from-Gives 6 0 p s1 ok1 in
      (
        ap₂
            (λ (l : ℕ) (bs : List ℕ).
              some (record (device_at cfg p) { irq_line = l % 256; bar = bs }))
            line bars,
        ok2,
      )

  -- What a test of the code gives at a function that answers.
  abbrev pub Decides : (ℕ → ℕ → ℕ → ℕ → Io S (Option PciDevice)) → (PciDevice → Bool) → Type 0
  Decides matches test =
      (p : Place)
      → Gives P (matches p.bus p.dev p.func (low_word (register cfg p 0x00)))
          (if test (device_at cfg p) then some (device_at cfg p) else none)

  pub device_matches-Decides :
      (vendor_id device_id : ℕ)
      → Decides
          (device_matches io vendor_id device_id)
          (λ d. d.vendor_id == vendor_id && d.device_id == device_id)
  unfolding device_matches
  device_matches-Decides vendor_id device_id p =
      let vendor = low_word (register cfg p 0x00) in
      let dr = register cfg p 0x02 in
      let read : ℕ → Io S ℕ = pci_config_read io p.bus p.dev p.func in
      let hit : ℕ → Io S (Option PciDevice) =
        λ r. read 0x08 >>= found_device io p.bus p.dev p.func vendor r in
      Gives-bind P (read 0x02)
        (λ r. if vendor == vendor_id && high_word r == device_id then hit r else pure none) dr _
        (read-Gives p 0x02)
        (Gives-if P (vendor == vendor_id && high_word dr == device_id) (hit dr) (pure none) _ _
          (Gives-bind P (read 0x08) (found_device io p.bus p.dev p.func vendor dr)
            (register cfg p 0x08) _ (read-Gives p 0x08) (found-Gives p))
          (Gives-pure P none))

  pub class_matches-Decides :
      (class_code subclass : ℕ)
      → Decides
          (class_matches io class_code subclass)
          (λ d. d.class_code == class_code && d.subclass == subclass)
  unfolding class_matches
  class_matches-Decides class_code subclass p =
      let vendor = low_word (register cfg p 0x00) in
      let cr = register cfg p 0x08 in
      let read : ℕ → Io S ℕ = pci_config_read io p.bus p.dev p.func in
      let hit : ℕ → Io S (Option PciDevice) =
        λ r. read 0x02 >>= (λ dr. found_device io p.bus p.dev p.func vendor dr r) in
      let test : ℕ → Bool = λ r. byte_at 3 r == class_code && byte_at 2 r == subclass in
      Gives-bind P (read 0x08) (λ r. if test r then hit r else pure none) cr _ (read-Gives p 0x08)
        (Gives-if P (test cr) (hit cr) (pure none) _ _
          (Gives-bind P (read 0x02) (λ dr. found_device io p.bus p.dev p.func vendor dr cr)
            (register cfg p 0x02) _ (read-Gives p 0x02) (found-Gives p))
          (Gives-pure P none))
