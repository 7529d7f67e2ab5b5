-- ===== src/Tests/Ports.antt =====
-- A machine with two ports, through which the registers of a network card in device 3 of bus 0 are
-- read.
use sros.Prelude.{Bool, ◌%◌, ℕ, refl, true, false, [], ◌&&◌, ◌==◌, if◌then◌else◌}
use sros.Ports.{Ports, Gives}
use sros.Rtl8139.{Card}
use sros.Pci.{pci_find_device, pci_find_by_class, config_address}
use sros.Pci.Places.{range_from, on_buses, device_at, first_device}
use sros.Pci.Search.{pci_find-Gives}

abbrev card : ℕ → ℕ
card a =
    if a == config_address 0 3 0 0x00
    then 0x813910EC
    else if a == config_address 0 3 0 0x08
    then 0x02000020
    else 0xFFFFFFFF

-- The state is the address that was written last.
abbrev machine : Ports ℕ
machine = record {
  inb = λ p s. (0xFF, s);
  inw = λ p s. (0xFFFF, s);
  inl = λ p s. (card s, s);
  outb = λ p v s. s;
  outw = λ p v s. s;
  outl = λ p v s. if p == 0xCF8 then v else s;
}

pci_find_example :
    Gives {S = ℕ}
      (λ s. Unit {0})
      (pci_find_device machine 0x10EC 0x8139)
      (first_device
        (device_at card)
        (λ d. d.vendor_id == 0x10EC && d.device_id == 0x8139)
        (on_buses card (range_from 0 256)))
    × Gives {S = ℕ}
        (λ s. Unit {0})
        (pci_find_by_class machine 2 0)
        (first_device
          (device_at card)
          (λ d. d.class_code == 2 && d.subclass == 0)
          (on_buses card (range_from 0 256)))
pci_find_example =
    pci_find-Gives machine card (λ s. Unit {0}) (λ a s ok. (refl, tt)) 0x10EC 0x8139 2 0

-- A network card that has written one frame of 60 bytes and its checksum.
abbrev frame_buffer : ℕ → ℕ
frame_buffer a = if a == 0 then 1 else if a == 2 then 64 else 0

-- Its state says whether the frame has been acknowledged: a write of 1 clears the status.
abbrev network : Ports Bool
network = record {
  inb = λ p s. (0xFF, s);
  inw = λ p s. (if p == 0xC03E then (if s then 0 else 1) else if p == 0xC03A then 68 else 0, s);
  inl = λ p s. (0xFFFFFFFF, s);
  outb = λ p v s. s;
  outw = λ p v s. if p == 0xC03E && v % 2 == 1 then true else s;
  outl = λ p v s. s;
}

abbrev driver : Card
driver = record {
  io_base = 0xC000;
  rtl8139_mac = [];
  tx_bufs = [];
  tx_cur = 0;
  rx_ptr = 0;
  rtl8139_packet_count = 7;
  rtl8139_has_packet = false;
}
