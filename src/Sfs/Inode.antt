-- ===== src/Sfs/Inode.antt =====
-- fs/sfs.c: `sfs_read_inode` and `sfs_write_inode`.
pub mod Laws
use sros.Prelude.{
  ℕ, ◌+◌, ◌-◌, ◌*◌, ◌/◌, ◌%◌, Bool, true, false, ◌||◌, Option, none, some, List, leb, ◌==◌,
  if◌then◌else◌,
}
use sros.Sfs.{Fs, SfsInode, block_read, block_write, slice, splice}
use sros.Sfs.Codec.{inode_bytes, inode_of, inode_size}

-- 4096 / 61 inodes to a block.
abbrev pub inodes_per_block : ℕ
inodes_per_block = 67

abbrev pub bad_inode : ℕ → Fs → Bool
bad_inode ino f = ino == 0 || leb f.sb.inode_count ino

abbrev pub inode_block : ℕ → Fs → ℕ
inode_block ino f = f.sb.inode_table_start + (ino - 1) / inodes_per_block

abbrev pub inode_offset : ℕ → ℕ
inode_offset ino = (ino - 1) % inodes_per_block * inode_size

-- `none` is the result -1.
unfoldable pub sfs_read_inode : ℕ → Fs → Option SfsInode
sfs_read_inode ino f =
    if bad_inode ino f
    then none
    else some
        (inode_of (slice (inode_offset ino) inode_size (block_read (inode_block ino f) f.stale f)))

-- The result says whether the number was in range.
pub sfs_write_inode : SfsInode → Fs → Bool × Fs
sfs_write_inode i f = if bad_inode i.ino f then (false, f) else (
  true,
  block_write (inode_block i.ino f)
      (splice (inode_offset i.ino) (inode_bytes i) (block_read (inode_block i.ino f) f.stale f)) f,
)
