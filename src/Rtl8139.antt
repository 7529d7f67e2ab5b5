-- ===== src/Rtl8139.antt =====
-- drivers/rtl8139.c: the reset of the network card, the sending of frames, and the walk over the
-- receive buffer. The buffer is memory that the card writes to, so its bytes belong to the machine.
pub mod Receive
use sros.Prelude.{
  ℕ, zero, suc, ◌+◌, ◌-◌, ◌*◌, ◌/◌, ◌%◌, ◌^◌, ◌++◌, Bool, true, false, ◌&&◌, ◌||◌, Option, none,
  some, List, [], ◌∷◌, ltb, leb, ◌==◌, if◌then◌else◌, length, drop, modify, replicate, set,
}
use sros.Ports.{Ports, Io, pure, ◌>>=◌, ◌>>◌, act}

-- The variables of the driver; `io_base` is 0 before the card has been found.
pub record Card : Type 0 where
  pub io_base : ℕ
  pub rtl8139_mac : List ℕ
  pub tx_bufs : List (List ℕ)
  pub tx_cur : ℕ
  pub rx_ptr : ℕ
  pub rtl8139_packet_count : ℕ
  pub rtl8139_has_packet : Bool

-- The size of the receive buffer.
abbrev pub rx_buf_size : ℕ
rx_buf_size = 8192 + 16

-- A frame with its padding to 64 bytes.
abbrev padded : List ℕ → List ℕ
padded frame = if ltb (length frame) 64 then frame ++ replicate (64 - length frame) 0 else frame

-- `data_len` as a u32.
abbrev pub data_len : ℕ → ℕ
data_len rx_size = (rx_size + 2 ^ 32 - 4) % 2 ^ 32

-- A packet that is counted.
abbrev pub counted : ℕ → ℕ → Bool
counted rx_status rx_size =
    rx_status % 2 == 1 && ltb 0 (data_len rx_size) && ltb (data_len rx_size) 2000

-- Where the next packet is looked for.
abbrev pub next_ptr : ℕ → ℕ → ℕ
next_ptr rx_ptr rx_size =
    let p = (rx_ptr + 4 + rx_size + 3) % 2 ^ 32 / 4 * 4 in if leb rx_buf_size p then 0 else p

-- The variables after a packet.
abbrev pub pass_packet : ℕ → ℕ → Card → Card
pass_packet rx_status rx_size c = record c {
  rx_ptr = next_ptr c.rx_ptr rx_size;
  rtl8139_packet_count =
      (if counted rx_status rx_size
        then (c.rtl8139_packet_count + 1) % 2 ^ 32
        else c.rtl8139_packet_count);
}

module _ {S : Type 0} (io : Ports S) where
  -- The waiting by reads of port 0x80.
  spin : ℕ → Io S (Unit {0})
  spin zero = pure tt
  spin (suc n) = io.inb 0x80 >>= λ b. spin n

  -- The loop of `rtl_reset`, with the rounds left.
  reset_from : ℕ → ℕ → Io S (Unit {0})
  unfolding spin
  reset_from zero io_base = pure tt
  reset_from (suc n) io_base = do
    cr ← io.inb (io_base + 0x37)
    let rest = spin 100 >> reset_from n io_base
    if cr / 16 % 2 == 1 then rest else pure tt

  rtl_reset : ℕ → Io S (Unit {0})
  unfolding reset_from
  rtl_reset io_base = do act (io.outb (io_base + 0x37) 0x10); reset_from 1000 io_base

  -- The wait for a frame to be sent, with the rounds left.
  wait_sent : ℕ → ℕ → Io S (Unit {0})
  unfolding spin
  wait_sent zero reg = pure tt
  wait_sent (suc n) reg = do
    ts ← io.inl reg
    let rest = spin 10 >> wait_sent n reg
    if ts / 0x2000 % 2 == 1 then pure tt else rest

  -- `false` is -1. The length is below 0x1000, so `|` adds.
  rtl8139_send : List ℕ → Card → Io S (Bool × Card)
  unfolding wait_sent
  rtl8139_send frame c = do
    let len = length frame
    let reg = c.io_base + 0x10 + c.tx_cur * 4
    let bytes = padded frame
    let send = do
      act (io.outl reg (length bytes + 0x3000))
      wait_sent 5000 reg
      pure (
        true,
        record c {
          tx_bufs = modify c.tx_bufs c.tx_cur (λ old. bytes ++ drop (length bytes) old);
          tx_cur = (c.tx_cur + 1) % 4;
        },
      )
    if c.io_base == 0 || ltb len 14 || ltb 1514 len then pure (false, c) else send

module _ {S : Type 0} (io : Ports S) (rx_byte : ℕ → S → ℕ) where
  -- A word of a packet's header.
  unfoldable pub rx_word : ℕ → Io S ℕ
  rx_word at s = (rx_byte at s + 256 * rx_byte (at + 1) s, s)

  -- The loop over the packets, with the rounds of the fuel; `none` if they are not enough.
  unfoldable pub receive_from : ℕ → Card → Io S (Option Card)
  unfolding rx_word
  receive_from zero c = pure none
  receive_from (suc n) c = do
    cbr ← io.inw (c.io_base + 0x3A)
    let packet = do
      rx_status ← rx_word c.rx_ptr
      rx_size ← rx_word (c.rx_ptr + 2)
      act (io.outw (c.io_base + 0x38) ((next_ptr c.rx_ptr rx_size + 2 ^ 16 - 16) % 2 ^ 16))
      receive_from n (pass_packet rx_status rx_size c)
    if c.rx_ptr == cbr then pure (some c) else packet

  -- Errors are only printed.
  unfoldable pub rtl8139_handle_irq : ℕ → Card → Io S (Option Card)
  unfolding receive_from
  rtl8139_handle_irq fuel c = do
    let handle = do
      isr ← io.inw (c.io_base + 0x3E)
      let acknowledged = do
        act (io.outw (c.io_base + 0x3E) isr)
        let receive = do
          r ← receive_from fuel c
          pure (elim r [ none ↦ none | some c' ↦ some (record c' { rtl8139_has_packet = true }) ])
        if isr % 2 == 1 then receive else pure (some c)
      if isr == 0 then pure (some c) else acknowledged
    if c.io_base == 0 then pure (some c) else handle
