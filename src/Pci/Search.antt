-- ===== src/Pci/Search.antt =====
-- The searches of drivers/pci.c against the list of the functions that are there.
use sros.Prelude.{
  ℕ, zero, suc, ◌+◌, ◌≡◌, refl, Bool, false, ◌&&◌, Option, none, some, List, [], ◌∷◌, ◌++◌, ◌==◌,
  if◌then◌else◌, arith, Bool-cases, inl, inr,
}
use sros.Ports.{Ports, Io, Gives, pure, ◌>>=◌, Gives-pure, Gives-bind}
use sros.Pci.{
  PciDevice, low_word, absent, is_multi, pci_config_read, device_matches, class_matches, after_test,
  find_func, or_next, find_dev, find_bus, pci_find_device, pci_find_by_class,
}
use sros.Pci.Places.{
  range_from, Place, register, others, functions, on_bus, on_buses, device_at, first_device,
  first_device-append,
}
use sros.Pci.Reads.{IsConfig, Decides, read-Gives, device_matches-Decides, class_matches-Decides}

module _ {S : Type 0} (io : Ports S) (cfg : ℕ → ℕ) (P : S → Type 0)
    (config : IsConfig io cfg P) where
  module _ (matches : ℕ → ℕ → ℕ → ℕ → Io S (Option PciDevice)) (test : PciDevice → Bool)
      (decides : Decides io cfg P config matches test) where
    abbrev first_of : List Place → Option PciDevice
    first_of ps = first_device (device_at cfg) test ps

    -- A function that answers, and what follows its test.
    tested-Gives :
        (p : Place) (after : Option PciDevice → Io S (Option PciDevice)) (ps : List Place)
        → ((d : PciDevice) → Gives P (after (some d)) (some d))
        → Gives P (after none) (first_of ps)
        → Gives P
            (matches p.bus p.dev p.func (low_word (register cfg p 0x00)) >>= after)
            (first_of (p ∷ ps))
    tested-Gives p after ps stop on =
        Gives-bind P (matches p.bus p.dev p.func (low_word (register cfg p 0x00))) after
          (if test (device_at cfg p) then some (device_at cfg p) else none) _ (decides p)
          (elim (Bool-cases (test (device_at cfg p))) [
            | inl hit ↦ rw hit (stop (device_at cfg p))
            | inr miss ↦ rw miss on
          ])

    others-Gives :
        (n bus d f : ℕ)
        → (f == 0) ≡ false
        → Gives P (find_func io matches n bus d f) (first_of (others cfg bus d (range_from f n)))
    unfolding find_func after_test
    others-Gives zero bus d f nz = Gives-pure P none
    others-Gives (suc n) bus d f nz =
        let p : Place = record { bus = bus; dev = d; func = f } in
        let rest = find_func io matches n bus d (f + 1) in
        let more : (f + 1 == 0) ≡ false = ground arith in
        let ih = others-Gives n bus d (f + 1) more in
        let body : ℕ → Io S (Option PciDevice) = λ vr.
          if absent (low_word vr)
          then (if f == 0 then pure none else rest)
          else (matches bus d f (low_word vr) >>= after_test io matches bus d f rest) in
        Gives-bind P (pci_config_read io bus d f 0x00) body (register cfg p 0x00) _
          (read-Gives io cfg P config p 0x00)
          (elim (Bool-cases (absent (low_word (register cfg p 0x00)))) [
            | inl gone ↦ rw (gone, nz) ih
            | inr there ↦ rw there (
                tested-Gives p (after_test io matches bus d f rest)
                  (others cfg bus d (range_from (f + 1) n)) (λ hit. Gives-pure P (some hit))
                  (rw nz ih))
          ])

    functions-Gives :
        (bus d : ℕ) → Gives P (find_func io matches 8 bus d 0) (first_of (functions cfg bus d))
    unfolding find_func after_test
    functions-Gives bus d =
        let p : Place = record { bus = bus; dev = d; func = 0 } in
        let rest = find_func io matches 7 bus d 1 in
        let ih = others-Gives 7 bus d 1 refl in
        let single : ℕ → Io S (Option PciDevice) = λ h. if is_multi h then rest else pure none in
        let body : ℕ → Io S (Option PciDevice) = λ vr.
          if absent (low_word vr)
          then pure none
          else (matches bus d 0 (low_word vr) >>= after_test io matches bus d 0 rest) in
        Gives-bind P (pci_config_read io bus d 0 0x00) body (register cfg p 0x00) _
          (read-Gives io cfg P config p 0x00)
          (elim (Bool-cases (absent (low_word (register cfg p 0x00)))) [
            | inl gone ↦ rw gone (Gives-pure P none)
            | inr there ↦ rw there (elim (Bool-cases (is_multi (register cfg p 0x0E))) [
              | inl many ↦ rw many (
                  tested-Gives p (after_test io matches bus d 0 rest)
                    (others cfg bus d (range_from 1 7)) (λ hit. Gives-pure P (some hit))
                    (Gives-bind P (pci_config_read io bus d 0 0x0E) single (register cfg p 0x0E) _
                      (read-Gives io cfg P config p 0x0E) (rw many ih)))
              | inr one ↦ rw one (
                  tested-Gives p (after_test io matches bus d 0 rest) []
                    (λ hit. Gives-pure P (some hit))
                    (Gives-bind P (pci_config_read io bus d 0 0x0E) single (register cfg p 0x0E) _
                      (read-Gives io cfg P config p 0x0E) (rw one (Gives-pure P none))))
            ])
          ])

    or_next-Gives :
        (m rest : Io S (Option PciDevice)) (ps qs : List Place)
        → Gives P m (first_of ps)
        → Gives P rest (first_of qs)
        → Gives P (m >>= or_next io matches rest) (first_of (ps ++ qs))
    unfolding or_next
    or_next-Gives m rest ps qs gm gr = rw (first_device-append (device_at cfg) test ps qs) (
        Gives-bind P m (or_next io matches rest) (first_of ps) _ gm
          (elim (first_of ps)
            as (λ o.
              Gives P (or_next io matches rest o)
                (elim o [ none ↦ first_of qs | some d ↦ some d ])) [
                  | none ↦ gr
                  | some d ↦ Gives-pure P (some d)
                ]))

    on_bus-Gives :
        (n bus d : ℕ)
        → Gives P (find_dev io matches n bus d) (first_of (on_bus cfg bus (range_from d n)))
    unfolding find_dev
    on_bus-Gives zero bus d = Gives-pure P none
    on_bus-Gives (suc n) bus d =
        or_next-Gives (find_func io matches 8 bus d 0) (find_dev io matches n bus (d + 1))
          (functions cfg bus d) (on_bus cfg bus (range_from (d + 1) n)) (functions-Gives bus d)
          (on_bus-Gives n bus (d + 1))

    on_buses-Gives :
        (n bus : ℕ)
        → Gives P (find_bus io matches n bus) (first_of (on_buses cfg (range_from bus n)))
    unfolding find_bus
    on_buses-Gives zero bus = Gives-pure P none
    on_buses-Gives (suc n) bus =
        or_next-Gives (find_dev io matches 32 bus 0) (find_bus io matches n (bus + 1))
          (on_bus cfg bus (range_from 0 32)) (on_buses cfg (range_from (bus + 1) n))
          (on_bus-Gives 32 bus 0) (on_buses-Gives n (bus + 1))

  -- On a machine whose ports 0xCF8 and 0xCFC give access to the configuration space,
  -- pci_find_device gives the first device with the vendor and device id, and pci_find_by_class
  -- the first with the class and subclass, among the functions that are there in the order of bus,
  -- device and function, with their registers as read; or -1 if there is none.
  pub pci_find-Gives :
      (vendor_id device_id class_code subclass : ℕ)
      → let places = on_buses cfg (range_from 0 256) in
        Gives P (pci_find_device io vendor_id device_id) (
          first_device
            (device_at cfg)
            (λ d. d.vendor_id == vendor_id && d.device_id == device_id)
            places)
        × Gives P (pci_find_by_class io class_code subclass) (
            first_device
              (device_at cfg)
              (λ d. d.class_code == class_code && d.subclass == subclass)
              places)
  unfolding pci_find_device pci_find_by_class
  pci_find-Gives vendor_id device_id class_code subclass = (
    on_buses-Gives (device_matches io vendor_id device_id)
        (λ d. d.vendor_id == vendor_id && d.device_id == device_id)
        (device_matches-Decides io cfg P config vendor_id device_id) 256 0,
    on_buses-Gives (class_matches io class_code subclass)
        (λ d. d.class_code == class_code && d.subclass == subclass)
        (class_matches-Decides io cfg P config class_code subclass) 256 0,
  )
