-- ===== src/Ata.antt =====
-- drivers/ata.c: the primary master drive behind its ports, with 28-bit sector numbers.
pub mod Drive
pub mod Waits
pub mod Reading
pub mod Writing
pub mod Back
pub mod Blocks
use sros.Prelude.{
  ℕ, zero, suc, ◌+◌, ◌-◌, ◌*◌, ◌/◌, ◌%◌, ◌^◌, ◌++◌, Bool, true, false, Option, none, some, List, [],
  ◌∷◌, ◌==◌, if◌then◌else◌, get_or,
}
use mathlib.Core.List.{reverse}
use sros.Ports.{Ports, Io, pure, ◌>>=◌, ◌>>◌, act}

-- The bits of the status.
abbrev pub has_bsy : ℕ → Bool
has_bsy st = st / 128 % 2 == 1

abbrev pub has_drq : ℕ → Bool
has_drq st = st / 8 % 2 == 1

abbrev pub has_err : ℕ → Bool
has_err st = st % 2 == 1

-- How often `while (--timeout)` goes round.
abbrev pub rounds : ℕ
rounds = 30000000 - 1

-- The `i`-th word of a buffer, by its bytes.
abbrev pub word_at : (ℕ → ℕ) → ℕ → ℕ
word_at buf i = buf (i * 2) + 256 * buf (i * 2 + 1)

abbrev drop_spaces : List ℕ → List ℕ
drop_spaces [] = []
drop_spaces (c ∷ cs) = let rest = drop_spaces cs in if c == b' ' then rest else c ∷ cs

-- The words 27 to 46 with the high byte first.
abbrev model_from : ℕ → ℕ → List ℕ → List ℕ
model_from zero i ident = []
model_from (suc n) i ident =
    let w = get_or ident (27 + i) 0 in w / 256 % 256 ∷ w % 256 ∷ model_from n (i + 1) ident

-- What `ata_init` prints of a drive: its name without the spaces around it, and its sectors.
pub record Detected : Type 0 where
  pub model : List ℕ
  pub total_sectors : ℕ

identified : List ℕ → Option Detected
identified ident =
    if get_or ident 0 0 / 0x8000 % 2 == 1
    then none
    else some (record {
      model = reverse (drop_spaces (reverse (drop_spaces (model_from 20 0 ident))));
      total_sectors = get_or ident 60 0 + get_or ident 61 0 * 2 ^ 16;
    })

module _ {S : Type 0} (io : Ports S) where
  -- The loop of `ata_wait_busy`, with the rounds left; `false` is -1.
  unfoldable pub wait_busy_from : ℕ → Io S Bool
  wait_busy_from zero = pure false
  wait_busy_from (suc n) = do
    st ← io.inb 0x3F6
    let rest = wait_busy_from n
    if has_bsy st then rest else pure true

  unfoldable pub ata_wait_busy : Io S Bool
  ata_wait_busy = wait_busy_from rounds

  -- The loop of `ata_wait_drq`.
  unfoldable pub wait_drq_from : ℕ → Io S Bool
  wait_drq_from zero = pure false
  wait_drq_from (suc n) = do
    st ← io.inb 0x3F6
    let rest = wait_drq_from n
    if has_err st then pure false else if has_drq st then pure true else rest

  unfoldable pub ata_wait_drq : Io S Bool
  ata_wait_drq = do ready ← ata_wait_busy; if ready then wait_drq_from rounds else pure false

  ata_delay : Io S (Unit {0})
  ata_delay = do a ← io.inb 0x3F6; b ← io.inb 0x3F6; c ← io.inb 0x3F6; d ← io.inb 0x3F6; pure tt

  -- `n` words from the data port.
  read_words : ℕ → Io S (List ℕ)
  read_words zero = pure []
  read_words (suc n) = do w ← io.inw 0x1F0; ws ← read_words n; pure (w ∷ ws)

  -- `none` is -1.
  ata_init : Io S (Option Detected)
  ata_init = do
    act (io.outb 0x1F6 0xE0)
    ata_delay
    st ← io.inb 0x1F7
    let identify = do
      act (io.outb 0x1F2 0)
      act (io.outb 0x1F3 0)
      act (io.outb 0x1F4 0)
      act (io.outb 0x1F5 0)
      act (io.outb 0x1F7 0xEC)
      ata_delay
      ready ← ata_wait_drq
      if ready then read_words 256 >>= (λ ws. pure (identified ws)) else pure none
    if st == 0xFF then pure none else identify

  -- `n` words from the data port into the buffer, the low byte first.
  unfoldable pub read_bytes : ℕ → Io S (List ℕ)
  read_bytes zero = pure []
  read_bytes (suc n) = do w ← io.inw 0x1F0; bs ← read_bytes n; pure (w % 256 ∷ w / 256 % 256 ∷ bs)

  -- The registers of a transfer, and its command. `|` adds, since the parts do not overlap.
  unfoldable pub command : ℕ → ℕ → ℕ → Io S (Unit {0})
  command cmd lba count = do
    act (io.outb 0x1F2 count)
    act (io.outb 0x1F3 (lba % 256))
    act (io.outb 0x1F4 (lba / 2 ^ 8 % 256))
    act (io.outb 0x1F5 (lba / 2 ^ 16 % 256))
    act (io.outb 0x1F6 (0xE0 + lba / 2 ^ 24 % 16))
    act (io.outb 0x1F7 cmd)

  -- The loop over the sectors that are left: whether it ended, and the bytes it has stored.
  unfoldable pub read_sectors : ℕ → Io S (Bool × List ℕ)
  read_sectors zero = pure (true, [])
  read_sectors (suc left) = do
    ready ← ata_wait_drq
    let go = do bs ← read_bytes 256; rest ← read_sectors left; pure (rest.0, bs ++ rest.1)
    if ready then go else pure (false, [])

  -- The result, and the bytes that have been stored from the start of the buffer on.
  unfoldable pub read_count : ℕ → ℕ → Io S (Option ℕ × List ℕ)
  read_count lba count = do
    let transfer = do
      ready ← ata_wait_busy
      let go = do
        command 0x20 lba count
        (ok, bs) ← read_sectors count
        pure ((if ok then some (count * 512) else none), bs)
      if ready then go else pure (none, [])
    if count == 0 then pure (some 0, []) else transfer

  -- The count of sectors is a u8.
  unfoldable pub ata_read_sectors : ℕ → ℕ → Io S (Option ℕ × List ℕ)
  ata_read_sectors lba count = read_count lba (count % 2 ^ 8)

  -- `n` words of the buffer from the `i`-th on.
  unfoldable pub write_words : ℕ → ℕ → (ℕ → ℕ) → Io S (Unit {0})
  write_words zero i buf = pure tt
  write_words (suc n) i buf = act (io.outw 0x1F0 (word_at buf i)) >> write_words n (i + 1) buf

  -- The loop over the sectors that are left, with the words that are written.
  unfoldable pub write_sectors : ℕ → ℕ → (ℕ → ℕ) → Io S Bool
  write_sectors zero i buf = pure true
  write_sectors (suc left) i buf = do
    ready ← ata_wait_drq
    if ready then write_words 256 i buf >> write_sectors left (i + 256) buf else pure false

  unfoldable pub write_count : ℕ → ℕ → (ℕ → ℕ) → Io S (Option ℕ)
  write_count lba count buf = do
    let transfer = do
      ready ← ata_wait_busy
      let go = do
        command 0x30 lba count
        ok ← write_sectors count 0 buf
        let flush = do done ← ata_wait_busy; pure (if done then some (count * 512) else none)
        if ok then flush else pure none
      if ready then go else pure none
    if count == 0 then pure (some 0) else transfer

  unfoldable pub ata_write_sectors : ℕ → ℕ → (ℕ → ℕ) → Io S (Option ℕ)
  ata_write_sectors lba count buf = write_count lba (count % 2 ^ 8) buf
