-- ===== src/Rtl8139/Receive.antt =====
-- The walk of `rtl8139_handle_irq` of drivers/rtl8139.c over the packets in the receive buffer.
use sros.Prelude.{ℕ, ◌+◌, ◌*◌, ◌≡◌, ◌≢◌, List, [], ◌∷◌, if◌then◌else◌}
use sros.Ports.{Ports}
use sros.Rtl8139.{Card, counted, next_ptr}

-- The packets to be read, as their status and size.
abbrev pub Packets : Type 0
Packets = List (ℕ × ℕ)

-- How many of them are counted.
abbrev pub good : Packets → ℕ
good [] = 0
good ((rx_status, rx_size) ∷ ps) = (if counted rx_status rx_size then 1 else 0) + good ps

-- The word at a place of the buffer.
abbrev pub word_of : (ℕ → ℕ) → ℕ → ℕ
word_of buf a = buf a + 256 * buf (a + 1)

-- From `p` on stand the packets, each where the one before it ends, and the last ends at `cbr`.
abbrev pub Laid : (ℕ → ℕ) → ℕ → Packets → ℕ → Type 0
Laid buf cbr [] p = p ≡ cbr
Laid buf cbr ((rx_status, rx_size) ∷ ps) p =
    (p ≢ cbr)
    × (word_of buf p ≡ rx_status)
    × (word_of buf (p + 2) ≡ rx_size)
    × Laid buf cbr ps (next_ptr p rx_size)

module _ {S : Type 0} (io : Ports S) (rx_byte : ℕ → S → ℕ) (Asks P : S → Type 0) where
  -- While the card asks for service its status reads as `isr`. The write of that value acknowledges it,
  -- after which the machine satisfies `P`: the write place reads as `cbr`, the buffer keeps its bytes,
  -- and the read place may be told.
  pub record IsReceiving (base isr cbr : ℕ) (buf : ℕ → ℕ) : Type 0 where
    pub status_reads : (s : S) → Asks s → let r = io.inw (base + 0x3E) s in (r.0 ≡ isr) × Asks r.1
    pub acknowledged : (s : S) → Asks s → P (io.outw (base + 0x3E) isr s)
    pub place_reads : (s : S) → P s → let r = io.inw (base + 0x3A) s in (r.0 ≡ cbr) × P r.1
    pub advances : (v : ℕ) (s : S) → P s → P (io.outw (base + 0x38) v s)
    pub bytes : (a : ℕ) (s : S) → P s → rx_byte a s ≡ buf a

module _ {S : Type 0} (io : Ports S) (rx_byte : ℕ → S → ℕ) (Asks P : S → Type 0) (c : Card)
    (isr cbr : ℕ) (buf : ℕ → ℕ) (card : IsReceiving io rx_byte Asks P c.io_base isr cbr buf) where
  -- The driver that looks at the place `p`, after `k` packets.
  abbrev pub at_place : ℕ → ℕ → Card
  at_place p k = record c { rx_ptr = p; rtl8139_packet_count = k }
