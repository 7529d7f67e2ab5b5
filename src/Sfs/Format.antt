-- ===== src/Sfs/Format.antt =====
-- fs/sfs.c: formatting and mounting.
use sros.Prelude.{
  ℕ, ◌-◌, ◌^◌, ◌++◌, Bool, true, false, Option, none, some, List, ◌∷◌, ◌==◌, if◌then◌else◌,
  replicate, map,
}
use sros.Sfs.{Fs, SuperBlock, OpenFile, block_read, block_write, slice, fs_block_size, disk_blocks}
use sros.Sfs.Codec.{super_bytes, super_of, super_size}
use sros.Sfs.Bitmap.{bitmap_set, sfs_alloc_block}
use sros.Sfs.Inode.{sfs_write_inode}
use sros.Sfs.Dir.{root_ino, zero_block, dot_block, dir_inode}

abbrev pub sfs_magic : ℕ
sfs_magic = 0x53465321

-- The super block of a new file system, of 2 * 67 inodes.
abbrev pub fresh_super : SuperBlock
fresh_super = record {
  magic = sfs_magic;
  total_blocks = disk_blocks;
  inode_count = 134;
  inode_bitmap_start = 1;
  block_bitmap_start = 2;
  inode_table_start = 3;
  data_block_start = 5;
}

-- Bits 0 to 4 of the first byte: the blocks below the data.
abbrev reserved_bits : List ℕ
reserved_bits = 31 ∷ replicate (fs_block_size - 1) 0

-- The root directory in the block that the allocation gave. Its failure is not checked: -1 is
-- stored as a block number, which `block_write` refuses.
format_root : Option ℕ × Fs → Fs
format_root (found, f) =
    let b : ℕ = elim found [ none ↦ 2 ^ 32 - 1 | some n ↦ n ] in
    let f1 = block_write b (dot_block root_ino root_ino) f in
    let f2 = (sfs_write_inode (dir_inode root_ino b) f1).1 in
    block_write 1 (bitmap_set (block_read 1 zero_block f2) root_ino) f2

pub sfs_format : Fs → Fs
unfolding format_root
sfs_format f =
    let f0 = record f { sb = fresh_super } in
    let f1 =
      block_write 0 (super_bytes fresh_super ++ replicate (fs_block_size - super_size) 0) f0 in
    let f2 = block_write 1 (1 ∷ replicate (fs_block_size - 1) 0) f1 in
    let f3 = block_write 2 reserved_bits f2 in
    let f4 = block_write 4 zero_block (block_write 3 zero_block f3) in
    format_root (sfs_alloc_block f4)

-- The result says whether the magic number is right. The super block is taken over either way.
pub sfs_mount : Fs → Bool × Fs
sfs_mount f =
    let sb = super_of (slice 0 super_size (block_read 0 f.stale f)) in
    if sb.magic == sfs_magic
    then (
      true,
      record f {
        sb = sb;
        file_table = map (λ (o : OpenFile). record o { in_use = false }) f.file_table;
        mounted = true;
      },
    )
    else (false, record f { sb = sb })
