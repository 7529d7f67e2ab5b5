-- ===== src/Ata/Blocks.antt =====
-- fs/ramdisk.c over drivers/ata.c: a block of the file system is eight sectors.
pub mod Refine
use sros.Prelude.{ℕ, ◌*◌, Option, none, some, List, ltb, if◌then◌else◌, get_or, replicate}
use sros.Ports.{Ports, Io, pure, ◌>>=◌}
use sros.Ata.{ata_read_sectors, ata_write_sectors}
use sros.Sfs.{disk_blocks, fs_block_size}

module _ {S : Type 0} (io : Ports S) where
  -- `block_read`: the buffer after it. Sectors that are all read fill the buffer.
  unfoldable pub ata_block_read : ℕ → List ℕ → Io S (List ℕ)
  ata_block_read block_no buf = do
    let transfer = do
      (result, bs) ← ata_read_sectors io (block_no * 8) 8
      pure (elim result [ none ↦ replicate {A = ℕ} fs_block_size 0 | some n ↦ bs ])
    if ltb block_no disk_blocks then transfer else pure buf

  -- `block_write`: a failure is only printed.
  unfoldable pub ata_block_write : ℕ → List ℕ → Io S (Unit {0})
  ata_block_write block_no bs = do
    let transfer = do result ← ata_write_sectors io (block_no * 8) 8 (λ j. get_or bs j 0); pure tt
    if ltb block_no disk_blocks then transfer else pure tt
