-- ===== src/Pci/Places.antt =====
-- The functions that the configuration space of drivers/pci.c holds, in the order of the search.
use sros.Prelude.{
  ℕ, zero, suc, ◌+◌, ◌*◌, ◌%◌, ◌≡◌, refl, Bool, not, Option, none, some, List, [], ◌∷◌, ◌++◌,
  if◌then◌else◌, Bool-cases, inl, inr,
}
use sros.Pci.{PciDevice, config_address, low_word, high_word, byte_at, absent, is_multi}

-- The addresses `[i, i + n)`.
abbrev pub range_from : ℕ → ℕ → List ℕ
range_from i zero = []
range_from i (suc n) = i ∷ range_from (i + 1) n

-- A function's place: its bus, its device and its number.
pub record Place : Type 0 where
  pub bus : ℕ
  pub dev : ℕ
  pub func : ℕ

-- The registers, by the place and the offset.
module _ (cfg : ℕ → ℕ) where
  abbrev pub register : Place → ℕ → ℕ
  register p offset = cfg (config_address p.bus p.dev p.func offset)

  abbrev pub answers : Place → Bool
  answers p = not (absent (low_word (register p 0x00)))

  -- The places of a device's functions from `f` on.
  abbrev pub others : ℕ → ℕ → List ℕ → List Place
  others bus d [] = []
  others bus d (f ∷ fs) =
      let p : Place = record { bus = bus; dev = d; func = f } in
      if answers p then p ∷ others bus d fs else others bus d fs

  -- The functions of a device: none where function 0 is not there, function 0 alone where its header
  -- does not say that there are more.
  abbrev pub functions : ℕ → ℕ → List Place
  functions bus d =
      let p : Place = record { bus = bus; dev = d; func = 0 } in
      if not (answers p)
      then []
      else if is_multi (register p 0x0E)
      then p ∷ others bus d (range_from 1 7)
      else p ∷ []

  abbrev pub on_bus : ℕ → List ℕ → List Place
  on_bus bus [] = []
  on_bus bus (d ∷ ds) = functions bus d ++ on_bus bus ds

  abbrev pub on_buses : List ℕ → List Place
  on_buses [] = []
  on_buses (b ∷ bs) = on_bus b (range_from 0 32) ++ on_buses bs

  abbrev pub registers : ℕ → ℕ → Place → List ℕ
  registers i zero p = []
  registers i (suc n) p = register p (0x10 + i * 4) ∷ registers (i + 1) n p

  -- What is known of the function at a place.
  abbrev pub device_at : Place → PciDevice
  device_at p = record {
    bus = p.bus;
    dev = p.dev;
    func = p.func;
    vendor_id = low_word (register p 0x00);
    device_id = high_word (register p 0x02);
    class_code = byte_at 3 (register p 0x08);
    subclass = byte_at 2 (register p 0x08);
    prog_if = byte_at 1 (register p 0x08);
    irq_line = register p 0x3C % 256;
    bar = registers 0 6 p;
  }

-- The first device of a list of places that satisfies a test.
abbrev pub first_device : (Place → PciDevice) → (PciDevice → Bool) → List Place → Option PciDevice
first_device look test [] = none
first_device look test (p ∷ ps) = if test (look p) then some (look p) else first_device look test ps

pub first_device-append :
    (look : Place → PciDevice) (test : PciDevice → Bool) (ps qs : List Place)
    → first_device look test (ps ++ qs)
      ≡ (elim (first_device look test ps) [ none ↦ first_device look test qs | some d ↦ some d ])
first_device-append look test [] qs = refl
first_device-append look test (p ∷ ps) qs = elim (Bool-cases (test (look p))) [
  | inl e ↦ rw e
  | inr e ↦ rw e (first_device-append look test ps qs)
]
