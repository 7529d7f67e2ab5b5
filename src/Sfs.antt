-- ===== src/Sfs.antt =====
-- fs/sfs.c and fs/ramdisk.c: the file system, over a disk of blocks of bytes. The structures of
-- fs/sfs.h are packed, so each has a byte form, in which numbers are little-endian.
--
-- A local `u8 block[4096]` that nothing has filled holds unspecified bytes: they are the field
-- `stale` of the state. A C string is its bytes before the NUL.
pub mod Bytes
pub mod Bitmap
pub mod Codec
pub mod Inode
pub mod Dir
pub mod Format
pub mod File
pub mod Calls
use sros.Prelude.{
  get_or, ℕ, zero, suc, ◌+◌, ◌*◌, ◌/◌, ◌%◌, ◌^◌, ◌++◌, Bool, true, false, ◌&&◌, List, [], ◌∷◌, ltb,
  ◌==◌, if◌then◌else◌, replicate, length, take, drop,
}

abbrev pub fs_block_size : ℕ
fs_block_size = 4096

abbrev pub disk_blocks : ℕ
disk_blocks = 1024

-- `struct super_block`
pub record SuperBlock : Type 0 where
  pub magic : ℕ
  pub total_blocks : ℕ
  pub inode_count : ℕ
  pub inode_bitmap_start : ℕ
  pub block_bitmap_start : ℕ
  pub inode_table_start : ℕ
  pub data_block_start : ℕ

-- `struct sfs_inode`; `kind` is its `type`.
pub record SfsInode : Type 0 where
  pub ino : ℕ
  pub size : ℕ
  pub kind : ℕ
  pub block_count : ℕ
  pub blocks : List ℕ

-- `struct file`
pub record OpenFile : Type 0 where
  pub ino : ℕ
  pub offset : ℕ
  pub mode : ℕ
  pub in_use : Bool

-- The disk: its blocks, and whether the drive serves a command on a block. `stale` is what a buffer
-- holds before it is read into. `beyond i` is the number that is read at `blocks[i]` when an inode has
-- more blocks than its array.
pub record Fs : Type 0 where
  pub disk : ℕ → List ℕ
  pub serves : ℕ → Bool
  pub stale : List ℕ
  pub beyond : ℕ → ℕ
  pub sb : SuperBlock
  pub mounted : Bool
  pub file_table : List OpenFile

-- `inode->blocks[i]`
abbrev pub block_no : SfsInode → ℕ → Fs → ℕ
block_no inode i f = get_or inode.blocks i (f.beyond i)

-- The buffer after `block_read(block_no, buf)`.
unfoldable pub block_read : ℕ → List ℕ → Fs → List ℕ
block_read n buf f =
    if ltb n disk_blocks then (if f.serves n then f.disk n else replicate fs_block_size 0) else buf

abbrev pub write_block : ℕ → List ℕ → (ℕ → List ℕ) → ℕ → List ℕ
write_block n bs d m = if m == n then bs else d m

unfoldable pub block_write : ℕ → List ℕ → Fs → Fs
block_write n bs f =
    if ltb n disk_blocks && f.serves n then record f { disk = write_block n bs f.disk } else f

-- The bytes `[off, off + n)`.
abbrev pub slice : ℕ → ℕ → List ℕ → List ℕ
slice off n bs = take n (drop off bs)

-- The loop `buf[off + i] = bs[i]`.
abbrev pub splice : ℕ → List ℕ → List ℕ → List ℕ
splice off bs buf = take off buf ++ (bs ++ drop (off + length bs) buf)
